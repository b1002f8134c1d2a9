-- ===== src/Control/Execute/Stages.antt =====
-- The parts of `execute` of services/control-panel/internal/run/manager.go, one after the other.
use quant_dominater.Base.{
  String, Bool, true, false, none, some, List, [], ◌∷◌, ◌≡◌, ◌≢◌, Bool-cases, inl, inr, refl, sym,
  ap, ◌∙◌, if◌then◌else◌,
}
use quant_dominater.Base.Exits.{
  Post, Post-bind, Post-modify, Post-gets, Post-check, Post-check_eq, Post-and, Post-pure,
  Post-weaken, modify,
}
use quant_dominater.Orchestrator.Store.{Error, canceled, ok}
use quant_dominater.Control.Model.{
  BenchmarkRun, Metrics, ValidationResult, Status, starting, health_check, benchmarking, validating,
  scoring, finished,
}
use quant_dominater.Control.Execute.{
  Point, Env, EngineState, not_started, running, World, set_status, store_run, saved, save,
  start_engine, run_bots, keep_metrics, run_validator, recheck, score_run, end_run, conclude, body,
}
use quant_dominater.Control.Execute.Standing.{
  path_starting, path_health, path_bots, path_validating, path_scoring, Leaving, asked, probed,
  loaded, judged, graded, Post-call, At, Left, At-same, save-Post, set_status-At, enter-Post, leave,
}

module _ (w0 : World) (env : Env) where
  abbrev pub Stands : EngineState → Bool → List Status → World → Type 0
  Stands = At w0

  abbrev Out : World → Type 0
  Out = Left w0

  pub start_engine-Post :
      Post Out
        (Stands not_started false [])
        (λ _. Stands running false path_health)
        (start_engine env)
  unfolding start_engine
  start_engine-Post = enter-Post w0 env _ Point.at_start starting _ asked λ _.
      Post-bind _ _ (Post-gets _) λ run.
        Post-bind _ _ (Post-call _ (env.start run) (leave w0 asked)) λ endpoint.
          Post-bind _ _ (Post-modify _ (λ w h. engine_runs w h.0))
            λ _. enter-Post w0 env _ Point.at_health health_check _ probed λ _. Post-gets _
    where
      engine_runs :
          (w : World)
          → Stands not_started false path_starting w
          → Stands running false path_starting (record w { engine = running })
      engine_runs w at = record {
        engine = refl;
        cleanup = at.cleanup;
        trail = at.trail;
        same_id = at.same_id;
        same_slots = at.same_slots;
        same_cancels = at.same_cancels;
      }

  pub run_bots-Post :
      (endpoint : String)
      → Post Out
          (Stands running true path_health)
          (λ _. Stands running true path_bots)
          (run_bots env endpoint)
  unfolding run_bots
  run_bots-Post endpoint = enter-Post w0 env _ Point.at_bots benchmarking _ loaded λ _.
      Post-bind _ _ (Post-gets _) λ run.
        Post-weaken _ (λ metrics w h. h.0)
          (Post-call "BENCHMARKING" (env.botfleet run endpoint) (leave w0 loaded))

  keep_metrics-Post :
      (metrics : Metrics)
      → Post Out
          (Stands running true path_bots)
          (λ _. Stands running true path_bots)
          (keep_metrics env metrics)
  unfolding keep_metrics
  keep_metrics-Post metrics =
      Post-bind _ _ (Post-modify _ (λ w at. At-same w0 at refl refl refl refl refl refl))
        λ _. save-Post w0 env _ Point.metrics_saved loaded

  pub run_validator-Post :
      Post Out
        (Stands running true path_bots)
        (λ v w.
          Stands running true path_validating w
          × ((run : BenchmarkRun) × (env.validator run ≡ ok v)))
        (run_validator env)
  unfolding run_validator
  run_validator-Post = enter-Post w0 env _ Point.at_validator validating _ judged λ _.
      Post-bind _ _ (Post-gets _) λ run.
        Post-weaken _ (λ v w h. (h.0, (run, h.1)))
          (Post-call "VALIDATING" (env.validator run) (leave w0 judged))

  -- The verdict of the validator, as the run has it.
  abbrev pub HasVerdict : ValidationResult → World → Type 0
  HasVerdict v w = (w.run.validation ≡ some v) × (w.run.valid ≡ some v.valid)

  abbrev HasScore : World → Type 0
  HasScore w = (run : BenchmarkRun) × (w.run.score ≡ (env.calculate_score run).score)

  verdict_kept :
      (v : ValidationResult) (stage : String) (p : Point)
      → Post (λ _. Unit) (HasVerdict v) (λ _. HasVerdict v) (save env stage p)
  unfolding save saved store_run
  verdict_kept v stage p = Post-bind _ _ (Post-modify _ (λ w h. h)) λ _.
      Post-bind _ _ (record { at = λ w h. h })
        λ e. Post-bind _ _ (Post-check stage e (λ w h. tt)) λ _. Post-check stage _ (λ w h. tt)

  save_verdict-Post :
      (v : ValidationResult) (stage : String) (p : Point) {path : List Status}
      → Leaving running true path
      → Post Out
          (λ w. Stands running true path w × HasVerdict v w)
          (λ _ w. Stands running true path w × HasVerdict v w)
          (save env stage p)
  save_verdict-Post v stage p l = Post-and _ (save-Post w0 env stage p l) (verdict_kept v stage p)

  pub score_run-Post :
      (v : ValidationResult)
      → Post Out
          (λ w. Stands running true path_validating w × HasVerdict v w)
          (λ _ w.
            (Stands running true path_scoring w × HasVerdict v w × HasScore w)
            × (recheck env ≡ none))
          (score_run env)
  unfolding score_run
  score_run-Post v =
      Post-bind _ _ (Post-modify _ (λ w h. (set_status-At w0 scoring w h.0, h.1))) λ _.
        Post-bind _ _ (save_verdict-Post v _ Point.at_score graded) λ _.
          Post-bind _ _
            (Post-modify {Q = λ w. Stands running true path_scoring w × HasVerdict v w × HasScore w}
              _ (λ w h. (At-same w0 h.0 refl refl refl refl refl refl, h.1, (w.run, refl))))
            λ _.
              Post-bind _ _ (Post-check _ env.score_json (λ w h. leave w0 graded w h.0))
                λ _. Post-check_eq _ (recheck env) (λ w h. leave w0 graded w h.0)

  -- What a finished run has been given.
  pub record Graded (w : World) : Type 0 where
    pub verdict : ValidationResult
    pub vouched : (run : BenchmarkRun) × (env.validator run ≡ ok verdict)
    pub shown : HasVerdict verdict w
    pub scored : (run : BenchmarkRun) × (w.run.score ≡ (env.calculate_score run).score)
    pub not_cancelled : env.cancelled_at_recheck ≡ false

  abbrev pub Complete : World → Type 0
  Complete w =
      Stands running true (finished ∷ path_scoring) w × (w.run.status ≡ finished) × Graded w

  recheck_passed : recheck env ≡ none → env.cancelled_at_recheck ≡ false
  recheck_passed h = elim (Bool-cases env.cancelled_at_recheck) [
    | inl e ↦ absurd (some≢none (sym (ap (λ b. if b then some canceled else none) e) ∙ h))
    | inr e ↦ e
  ]
    where
      some≢none : some canceled ≢ none
      some≢none h = cc h

  finish-Post :
      (v : ValidationResult)
      → ((run : BenchmarkRun) × (env.validator run ≡ ok v))
      → Post {π = ⊥} {ε = Error} Out
          (λ w.
            (Stands running true path_scoring w × HasVerdict v w × HasScore w)
            × (recheck env ≡ none))
          (λ _. Complete)
          (modify (λ w. end_run env (set_status finished w)))
  unfolding store_run
  finish-Post v vouched = Post-modify _ (λ w h. (
    At-same w0 (set_status-At w0 finished w h.0.0) refl refl refl refl refl refl,
    refl,
    record {
      verdict = v;
      vouched = vouched;
      shown = h.0.1;
      scored = h.0.2;
      not_cancelled = recheck_passed h.1;
    },
  ))

  cleanup_deferred :
      (w : World)
      → Stands running false path_health w
      → Stands running true path_health (record w { cleanup_deferred = true })
  cleanup_deferred w at = record {
    engine = at.engine;
    cleanup = refl;
    trail = at.trail;
    same_id = at.same_id;
    same_slots = at.same_slots;
    same_cancels = at.same_cancels;
  }

  conclude-Post :
      (v : ValidationResult)
      → Post Out
          (λ w.
            Stands running true path_validating w
            × ((run : BenchmarkRun) × (env.validator run ≡ ok v)))
          (λ _. Complete)
          (conclude env v)
  unfolding conclude
  conclude-Post v = Post-pure _ λ vouched.
      Post-bind _ _
        (Post-modify {Q = λ w. Stands running true path_validating w × HasVerdict v w} _
          (λ w at. (At-same w0 at refl refl refl refl refl refl, (refl, refl))))
        λ _. Post-bind _ _ (score_run-Post v) λ _. finish-Post v vouched

  pub body-Post : Post Out (Stands not_started false []) (λ _. Complete) (body env)
  unfolding body
  body-Post = Post-bind _ _ start_engine-Post λ endpoint.
      Post-bind _ _ (Post-modify _ cleanup_deferred) λ _.
        Post-bind _ _ (run_bots-Post endpoint) λ metrics.
          Post-bind _ _ (keep_metrics-Post metrics)
            λ _. Post-bind _ _ run_validator-Post conclude-Post
