-- ===== src/Control/Execute/Ending.antt =====
-- How every call of `execute` of services/control-panel/internal/run/manager.go ends.
use quant_dominater.Base.{
  Option, none, some, ◌-◌, String, Bool, true, false, List, [], ◌∷◌, ◌≡◌, ◌≢◌, ◌↔◌, refl, sym, ap,
  ap₂, ◌∙◌, subst, subst₂, ℕ, if◌then◌else◌,
}
use quant_dominater.Base.Keys.{remove_cancel}
use quant_dominater.Base.Exits.{Exit, done, stop, panicked, Ends}
use quant_dominater.Orchestrator.Store.{Error}
use quant_dominater.Control.Model.{Status, finished, failed, cancelled, is_terminal}
use quant_dominater.Control.Execute.{
  Env, EngineState, not_started, running, stopped, unstopped, World, stop_state, killed,
  cancelled_by_exit, store_run, fail_or_cancel, unwind, body, execute,
}
use quant_dominater.Control.Execute.Standing.{
  path_health, path_scoring, Leaving, asked, probed, loaded, judged, graded, Left,
}
use quant_dominater.Control.Execute.Stages.{Graded, Complete, body-Post}

pub data IsFailure : Status → Type 0 where
  fails_failed : IsFailure failed
  fails_cancelled : IsFailure cancelled

-- The last status of a run, and all that its execution has set.
pub data Life : Status → List Status → Type 0 where
  whole : Life finished (finished ∷ path_scoring)
  cut :
      {eng : EngineState} {deferred : Bool} {path : List Status} {t : Status}
      → Leaving eng deferred path
      → IsFailure t
      → Life t (t ∷ path)

-- The run failed, and was not cancelled, behind the start of its engine and before the benchmark, and
-- its context was still not cancelled when the goroutine ended.
abbrev pub FailedInHealthCheck : Env → World → Type 0
FailedInHealthCheck env w = (w.trail ≡ failed ∷ path_health) × (env.cancelled_at_exit ≡ false)

-- What holds when an execution that was started at `w` is over.
pub record Executed (env : Env) (w w' : World) : Type 0 where
  pub life : Life w'.run.status w'.trail
  pub ended : is_terminal w'.run.status ≡ true
  pub slot_freed : w'.slots ≡ w.slots - 1
  pub cancel_dropped : w'.cancels ≡ remove_cancel w.run.run_id w.cancels
  pub engine_left : w'.engine ≡ running ↔ FailedInHealthCheck env w'
  pub engine_unstopped :
      w'.engine ≡ unstopped
      → ((e : Error) × (env.cleanup ≡ some e)) × (env.cancelled_at_exit ≡ false)
  pub finished_graded : w'.run.status ≡ finished → Graded w env w'

abbrev engine_after : Option Error → Bool → Bool → EngineState → EngineState
engine_after answer cancel b e = killed cancel (if b then stop_state answer e else e)

abbrev LeftRunning : Bool → EngineState → List Status → Type 0
LeftRunning cancel e trail = e ≡ running ↔ ((trail ≡ failed ∷ path_health) × (cancel ≡ false))

LeftRunning-not :
    (cancel : Bool) (e x : EngineState) (trail : List Status)
    → e ≡ x
    → x ≢ running
    → trail ≢ failed ∷ path_health
    → LeftRunning cancel e trail
LeftRunning-not cancel e x trail h off longer =
    (λ r. absurd (off (sym h ∙ r)), λ (p, c). absurd (longer p))

-- An engine that its clean-up was called for is not running.
asked_off :
    (answer : Option Error) (cancel : Bool) → engine_after answer cancel true running ≢ running
asked_off none false h = cc h
asked_off none true h = cc h
asked_off (some e) false h = cc h
asked_off (some e) true h = cc h

never_off :
    (answer : Option Error) (cancel : Bool) → engine_after answer cancel false not_started ≢ running
never_off answer false h = cc h
never_off answer true h = cc h

abbrev failure : Bool → Status
failure c = if c then cancelled else failed

abbrev dead_at_exit : Bool → Bool → Bool
dead_at_exit at_fail at_exit = if at_fail then true else at_exit

killed_running : (e : EngineState) → e ≡ stopped → e ≢ running
killed_running e h r = cc (sym h ∙ r)

-- Without a clean-up only the context ends the engine.
left_over :
    (answer : Option Error) (at_fail at_exit : Bool) (e : EngineState)
    → e ≡ engine_after answer (dead_at_exit at_fail at_exit) false running
    → LeftRunning at_exit e (failure at_fail ∷ path_health)
left_over answer false false e h = (λ r. (refl, refl), λ _. h)
left_over answer false true e h = (λ r. absurd (killed_running e h r), λ (p, c). absurd cc)
left_over answer true at_exit e h = (λ r. absurd (killed_running e h r), λ (p, c). cc p)

-- Only where the engine was started and its clean-up not deferred it can be left running.
engine_cut :
    (answer : Option Error) (at_fail at_exit : Bool) (e : EngineState) {eng : EngineState}
    {deferred : Bool} {path : List Status}
    → Leaving eng deferred path
    → e ≡ engine_after answer (dead_at_exit at_fail at_exit) deferred eng
    → LeftRunning at_exit e (failure at_fail ∷ path)
engine_cut answer c x e asked h =
    LeftRunning-not x e _ _ h (never_off answer (dead_at_exit c x)) (λ p. cc p)
engine_cut answer c x e probed h = left_over answer c x e h
engine_cut answer c x e loaded h =
    LeftRunning-not x e _ _ h (asked_off answer (dead_at_exit c x)) (λ p. cc p)
engine_cut answer c x e judged h =
    LeftRunning-not x e _ _ h (asked_off answer (dead_at_exit c x)) (λ p. cc p)
engine_cut answer c x e graded h =
    LeftRunning-not x e _ _ h (asked_off answer (dead_at_exit c x)) (λ p. cc p)

killed_off : (e : EngineState) → killed true e ≢ unstopped
killed_off not_started h = cc h
killed_off running h = cc h
killed_off stopped h = cc h
killed_off unstopped h = cc h

not_dead : (at_fail at_exit : Bool) → dead_at_exit at_fail at_exit ≡ false → at_exit ≡ false
not_dead true at_exit h = absurd cc
not_dead false at_exit h = h

-- Before the clean-up no engine is unstopped.
Leaving-plain :
    {eng : EngineState} {deferred : Bool} {path : List Status}
    → Leaving eng deferred path
    → eng ≢ unstopped
Leaving-plain asked h = cc h
Leaving-plain probed h = cc h
Leaving-plain loaded h = cc h
Leaving-plain judged h = cc h
Leaving-plain graded h = cc h

abbrev Unstopped : Option Error → Bool → Type 0
Unstopped answer cancel = ((e : Error) × (answer ≡ some e)) × (cancel ≡ false)

unstopped_by :
    (answer : Option Error) (cancel b : Bool) (e : EngineState)
    → e ≢ unstopped
    → engine_after answer cancel b e ≡ unstopped
    → Unstopped answer cancel
unstopped_by answer true true e h x = absurd (killed_off (stop_state answer e) x)
unstopped_by answer true false e h x = absurd (killed_off e x)
unstopped_by answer false false e h x = absurd (h x)
unstopped_by none false true not_started h x = absurd cc
unstopped_by none false true running h x = absurd cc
unstopped_by none false true stopped h x = absurd cc
unstopped_by none false true unstopped h x = absurd (h refl)
unstopped_by (some r) false true e h x = ((r, refl), refl)

failure_lem : (c : Bool) → IsFailure (if c then cancelled else failed)
failure_lem true = fails_cancelled
failure_lem false = fails_failed

IsFailure-ended : {t : Status} → IsFailure t → is_terminal t ≡ true
IsFailure-ended fails_failed = refl
IsFailure-ended fails_cancelled = refl

not_finished : {t : Status} {P : Type 0} → IsFailure t → t ≡ finished → P
not_finished fails_failed h = cc h
not_finished fails_cancelled h = cc h

module _ (w0 : World) (env : Env) where
  after_done : (w : World) → Complete w0 env w → Executed env w0 (unwind env (done tt) w)
  after_done w (at, s, g) = record {
    life = subst₂ Life (sym s) (sym at.trail) whole;
    ended = ap is_terminal s;
    slot_freed = ap (λ (n : ℕ). n - 1) at.same_slots;
    cancel_dropped = ap₂ remove_cancel at.same_id at.same_cancels;
    engine_left =
        subst
          (LeftRunning env.cancelled_at_exit
            (engine_after env.cleanup env.cancelled_at_exit w.cleanup_deferred w.engine))
          (sym at.trail)
          (LeftRunning-not env.cancelled_at_exit _ _ _
            (ap₂ (engine_after env.cleanup env.cancelled_at_exit) at.cleanup at.engine)
            (asked_off env.cleanup env.cancelled_at_exit) (λ p. cc p));
    engine_unstopped =
        unstopped_by env.cleanup env.cancelled_at_exit w.cleanup_deferred w.engine
          (λ x. Leaving-plain graded (sym at.engine ∙ x));
    finished_graded = λ _. record {
      verdict = g.verdict;
      vouched = g.vouched;
      shown = g.shown;
      scored = g.scored;
      not_cancelled = g.not_cancelled;
    };
  }

  after_stop :
      (stage : String) (e : Error) (w : World)
      → Left w0 w
      → Executed env w0 (unwind env (stop stage e) w)
  unfolding fail_or_cancel store_run
  after_stop stage e w (eng, deferred, path, l, at) =
      let t : Status = if env.cancelled_at_fail then cancelled else failed in
      let failure : IsFailure t = failure_lem env.cancelled_at_fail in
      record {
        life = subst (λ p. Life t (t ∷ p)) (sym at.trail) (cut l failure);
        ended = IsFailure-ended failure;
        slot_freed = ap (λ (n : ℕ). n - 1) at.same_slots;
        cancel_dropped = ap₂ remove_cancel at.same_id at.same_cancels;
        engine_left =
            subst
              (λ p.
                LeftRunning env.cancelled_at_exit
                  (engine_after env.cleanup (cancelled_by_exit env) w.cleanup_deferred w.engine)
                  (t ∷ p))
              (sym at.trail)
              (engine_cut env.cleanup env.cancelled_at_fail env.cancelled_at_exit _ l
                (ap₂ (engine_after env.cleanup (cancelled_by_exit env)) at.cleanup at.engine));
        engine_unstopped = λ x.
            let (why, live) =
              unstopped_by env.cleanup (cancelled_by_exit env) w.cleanup_deferred w.engine
                (λ y. Leaving-plain l (sym at.engine ∙ y)) x in
            (why, not_dead env.cancelled_at_fail env.cancelled_at_exit live);
        finished_graded = not_finished failure;
      }

-- A run as it is handed to `execute`.
pub record IsLaunched (w : World) : Type 0 where
  pub engine : w.engine ≡ not_started
  pub cleanup : w.cleanup_deferred ≡ false
  pub trail : w.trail ≡ []

-- Whatever the components answer and whatever fails: an execution of a launched run ends finished, or
-- behind the statuses of one of the five stages as failed or cancelled, and then its slot is free
-- again and its cancel function is gone. Its engine is left running exactly where the run failed in
-- the health check, behind the start of the engine, and its context was not cancelled by the end of
-- its goroutine, which would kill it. An engine outlives a clean-up only where that gave an error and,
-- again, the context was not cancelled. A finished run has the validator's verdict and a calculated
-- score, and was not cancelled at the second look.
pub execute_ends : (env : Env) (w : World) → IsLaunched w → Executed env w (execute env w)
unfolding execute
execute_ends env w fresh = from (body env w).0 (body env w).1 (
    (body-Post w env).at w (record {
      engine = fresh.engine;
      cleanup = fresh.cleanup;
      trail = fresh.trail;
      same_id = refl;
      same_slots = refl;
      same_cancels = refl;
    }))
  where
    from :
        (exit : Exit ⊥ Error (Unit {0})) (v : World)
        → Ends (λ _. Complete w env) (Left w) exit v
        → Executed env w (unwind env exit v)
    from (done a) v h = after_done w env v h
    from (stop stage e) v h = after_stop w env stage e v h
    from (panicked p) v h = absurd p
