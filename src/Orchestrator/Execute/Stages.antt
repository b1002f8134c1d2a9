-- ===== src/Orchestrator/Execute/Stages.antt =====
-- The parts of `execute` of services/orchestrator/internal/orchestrator/manager.go, one after the other.
use quant_dominater.Base.Exits.{
  Post, Post-bind, Post-modify, Post-gets, Post-check, Post-pure, Post-and,
}
use quant_dominater.Base.{
  String, Bool, some, List, [], ◌∷◌, ◌≡◌, refl, sym, ap, ◌∙◌, inl, inr, Bool-cases, All-append,
}
use quant_dominater.Orchestrator.Model.{
  RunStatus, building, sandbox_starting, health_checking, benchmarking, validating, scoring,
  finished, BenchmarkRun, Metrics, Submission, ValidationResult, ScoreResult,
}
use quant_dominater.Orchestrator.Execute.World.{
  returns, live, Env, EngineState, not_started, running, unstopped, Outcome, fails, panics, merged,
  emit, World,
}
use quant_dominater.Orchestrator.Execute.Run.{
  prepare, launch, benchmark, judge, transition, save, store_run, load_submission, stop_state,
  stop_engine, stop_now, stop_panics,
}
use quant_dominater.Orchestrator.Execute.Rules.{Post-call, Post-call_eq, Post-lift}
use quant_dominater.Orchestrator.Execute.Life.{
  asked, StopFails, EventOk, Reached, claimed, built, next, starts, probes, loads, validates,
  scores, finishes, At, Left, At-same, Post-live, transition-Post,
}

-- The trail at each status of the whole way.
abbrev pub path_built : List RunStatus
path_built = building ∷ []

abbrev pub path_started : List RunStatus
path_started = sandbox_starting ∷ path_built

abbrev pub path_probed : List RunStatus
path_probed = health_checking ∷ path_started

abbrev pub path_loaded : List RunStatus
path_loaded = benchmarking ∷ path_probed

abbrev pub path_validating : List RunStatus
path_validating = validating ∷ path_loaded

abbrev pub path_scoring : List RunStatus
path_scoring = scoring ∷ path_validating

abbrev pub path_whole : List RunStatus
path_whole = finished ∷ path_scoring

at_started : Reached sandbox_starting path_started
at_started = next built starts

at_probed : Reached health_checking path_probed
at_probed = next at_started probes

at_loaded : Reached benchmarking path_loaded
at_loaded = next at_probed loads

at_validating : Reached validating path_validating
at_validating = next at_loaded validates

at_scoring : Reached scoring path_scoring
at_scoring = next at_validating scores

pub at_whole : Reached finished path_whole
at_whole = next at_scoring finishes

pub asked-StopFails : (o : Outcome (Unit {0})) → stop_state o running ≡ unstopped → StopFails o
asked-StopFails (returns u) h = cc h
asked-StopFails (fails e) h = inl (e, refl)
asked-StopFails panics h = inr refl

module _ (w0 : World) (env : Env) where
  abbrev pub AtP : EngineState → RunStatus → List RunStatus → World → Type 0
  AtP = At w0 env

  abbrev pub LeftP : World → Type 0
  LeftP = Left w0 env

  leave_new : (w : World) → AtP not_started building [] w → LeftP w
  leave_new w h = (not_started, building, [], claimed, h)

  load_submission-Post :
      Post LeftP
        (AtP not_started building [])
        (λ _. AtP not_started building [])
        (load_submission env)
  unfolding load_submission
  load_submission-Post =
      Post-bind _ _
        (Post-modify _
          (λ w h. At-same w0 env not_started building [] w _ h refl refl refl refl refl refl refl))
        λ _. Post-bind _ _ (Post-gets _) λ f. Post-lift _ f leave_new

  pub prepare-Post :
      Post LeftP (AtP not_started building []) (λ _. AtP not_started building []) (prepare env)
  unfolding prepare
  prepare-Post =
      Post-bind _ _
        (Post-modify _
          (λ w h. At-same w0 env not_started building [] w _ h refl refl refl refl refl refl refl))
        λ _. Post-bind _ _ (Post-check _ env.mkdir leave_new) λ _.
          Post-bind _ _ (Post-check _ env.placeholders leave_new)
            λ _. Post-bind _ _ (Post-check _ env.config_json leave_new) λ _. load_submission-Post

  leave_built : (w : World) → AtP not_started building path_built w → LeftP w
  leave_built w h = (not_started, building, path_built, built, h)

  leave_started : (w : World) → AtP not_started sandbox_starting path_started w → LeftP w
  leave_started w h = (not_started, sandbox_starting, path_started, at_started, h)

  engine_started :
      (w : World)
      → AtP not_started sandbox_starting path_started w
      → AtP running sandbox_starting path_started (record w { engine = running })
  engine_started w h = record {
    engine = refl;
    status = h.status;
    trail = h.trail;
    same_id = h.same_id;
    same_slots = h.same_slots;
    same_cancels = h.same_cancels;
    events_ok = h.events_ok;
    allowed = h.allowed;
    origin = λ x. cc x;
  }

  pub launch-Post :
      (submission : Submission)
      → Post LeftP
          (AtP not_started building [])
          (λ _. AtP running sandbox_starting path_started)
          (launch env submission)
  unfolding launch
  launch-Post submission =
      Post-bind _ _
        (transition-Post w0 env _ not_started building building [] claimed built (λ h. h))
        λ _. Post-bind _ _ (Post-gets _) λ run.
          Post-bind _ _ (Post-call _ (env.build run submission) leave_built) λ _.
            Post-bind _ _
              (transition-Post w0 env _ not_started building sandbox_starting path_built built
                at_started (λ h. h))
              λ _. Post-bind _ _ (Post-gets _) λ run'.
                Post-bind _ _ (Post-call _ (env.start run') leave_started) λ endpoint.
                  Post-bind _ _ (Post-modify _ (λ w h. engine_started w h)) λ _. Post-gets _

  engine_stopped :
      (w : World)
      → AtP running benchmarking path_loaded w
      → AtP (asked env) benchmarking path_loaded (stop_engine env w)
  engine_stopped w h = record {
    engine = ap (stop_state env.stop) h.engine;
    status = h.status;
    trail = h.trail;
    same_id = h.same_id;
    same_slots = h.same_slots;
    same_cancels = h.same_cancels;
    events_ok = h.events_ok;
    allowed = h.allowed;
    origin = λ x. asked-StopFails env.stop (sym (ap (stop_state env.stop) h.engine) ∙ x);
  }

  stop_now-Post :
      Post LeftP
        (AtP running benchmarking path_loaded)
        (λ _. AtP (asked env) benchmarking path_loaded)
        (stop_now env)
  unfolding stop_now
  stop_now-Post = record {
    at = λ w h. elim (Bool-cases (stop_panics env.stop w.engine)) [
      | inl p ↦ rw p (asked env, benchmarking, path_loaded, at_loaded, engine_stopped w h)
      | inr p ↦ rw p (engine_stopped w h)
    ];
  }

  sample_merged :
      (w : World)
      → AtP (asked env) benchmarking path_loaded w
      → AtP (asked env) benchmarking path_loaded (emit (merged w.engine) w)
  sample_merged w h = record {
    engine = h.engine;
    status = h.status;
    trail = h.trail;
    same_id = h.same_id;
    same_slots = h.same_slots;
    same_cancels = h.same_cancels;
    events_ok = All-append (EventOk env) w.events (merged w.engine ∷ []) h.events_ok (h.engine, tt);
    allowed = h.allowed;
    origin = h.origin;
  }

  pub benchmark-Post :
      (endpoint : String)
      → Post LeftP
          (AtP running sandbox_starting path_started)
          (λ _. AtP (asked env) benchmarking path_loaded)
          (benchmark env endpoint)
  unfolding benchmark
  benchmark-Post endpoint =
      Post-bind _ _
        (Post-modify _ (λ w h.
          At-same w0 env running sandbox_starting path_started w _ h refl refl refl refl refl refl
            refl))
        λ _.
          Post-bind _ _
            (transition-Post w0 env _ running sandbox_starting health_checking path_started
              at_started at_probed (λ h. h))
            λ _.
              Post-bind _ _
                (transition-Post w0 env _ running health_checking benchmarking path_probed at_probed
                  at_loaded (λ h. h))
                λ _. Post-bind _ _ (Post-gets _) λ run.
                  Post-bind _ _
                    (Post-call _ (env.botfleet run endpoint)
                      (λ w h. (running, benchmarking, path_loaded, at_loaded, h)))
                    λ metrics.
                      Post-bind _ _ stop_now-Post
                        λ _. Post-bind _ _ (Post-modify _ sample_merged) λ _. Post-gets _

  leave_validating : (w : World) → AtP (asked env) validating path_validating w → LeftP w
  leave_validating w h = (asked env, validating, path_validating, at_validating, h)

  leave_scoring : (w : World) → AtP (asked env) scoring path_scoring w → LeftP w
  leave_scoring w h = (asked env, scoring, path_scoring, at_scoring, h)

  -- The verdict is the validator's and the score is the scorer's, for that verdict.
  abbrev pub Scored : World → Type 0
  Scored w =
      (before after : BenchmarkRun) × (metrics : Metrics) × (validation : ValidationResult)
      × (result : ScoreResult) × (env.validator before ≡ returns validation)
      × (env.score after metrics validation ≡ returns result)
      × (w.run.valid ≡ some validation.valid)
      × (w.run.score ≡ result.score)

  abbrev HasValid : Bool → World → Type 0
  HasValid v w = w.run.valid ≡ some v

  save_valid : (v : Bool) → Post (λ _. Unit) (HasValid v) (λ _. HasValid v) (save env)
  unfolding save store_run
  save_valid v = record { at = λ w h. h }

  transition_valid :
      (v : Bool) (stage : String) (st : RunStatus)
      → Post (λ _. Unit) (HasValid v) (λ _. HasValid v) (transition env stage st)
  unfolding transition
  transition_valid v stage st = Post-bind _ _ (Post-check stage _ (λ w h. tt)) λ _.
      Post-bind _ _ (Post-modify _ (λ w h. h)) λ _.
        Post-bind _ _ (Post-check stage _ (λ w h. tt))
          λ _. Post-bind _ _ (save_valid v) λ e. Post-check stage e (λ w h. tt)

  pub judge-Post :
      (metrics : Metrics)
      → Post LeftP
          (AtP (asked env) benchmarking path_loaded)
          (λ _ w. (AtP (asked env) scoring path_scoring w × Scored w) × (env.ctx_recheck ≡ live))
          (judge env metrics)
  unfolding judge
  judge-Post metrics =
      Post-bind _ _
        (transition-Post w0 env _ (asked env) benchmarking validating path_loaded at_loaded
          at_validating (λ h. h))
        λ _. Post-bind _ _ (Post-gets _) λ run.
          Post-bind _ _ (Post-call_eq _ (env.validator run) leave_validating) λ validation.
            Post-pure _ λ vouched.
              Post-bind _ _
                (Post-modify _ (λ w h. (
                  At-same w0 env (asked env) validating path_validating w _ h refl refl refl refl
                      refl refl refl,
                  refl,
                )))
                λ _.
                  Post-bind _ _
                    (Post-and _
                      (transition-Post w0 env _ (asked env) validating scoring path_validating
                        at_validating at_scoring (λ h. h))
                      (transition_valid validation.valid _ scoring))
                    λ _. Post-bind _ _ (Post-gets _) λ run'.
                      Post-bind _ _
                        (Post-call_eq _ (env.score run' metrics validation)
                          (λ w h. leave_scoring w h.0))
                        λ result. Post-pure _ λ graded.
                          Post-bind _ _
                            (Post-modify
                              {Q = λ w. AtP (asked env) scoring path_scoring w × Scored w} _
                              (λ w h. (
                                At-same w0 env (asked env) scoring path_scoring w _ h.0 refl refl
                                    refl refl refl refl refl,
                                (
                                  run, run', metrics, validation, result, vouched, graded, h.1,
                                  refl,
                                ),
                              )))
                            λ _. Post-live _ env.ctx_recheck (λ w h. leave_scoring w h.0)
