-- ===== src/Orchestrator/Execute/Life.antt =====
-- The statuses that `execute` of services/orchestrator/internal/orchestrator/manager.go takes a run through.
use quant_dominater.Base.Exits.{check, Post, Post-bind, Post-modify, Post-check}
use quant_dominater.Base.{
  ap₂, ◌∙◌, sym, subst, String, List, [], ◌∷◌, ◌≡◌, ◌⊎◌, refl, All, All-append,
}
use quant_dominater.Orchestrator.Model.{
  RunStatus, building, sandbox_starting, health_checking, benchmarking, validating, scoring,
  finished, failed, cancelled, timed_out, touch, BenchmarkRun,
}
use quant_dominater.Orchestrator.Store.{Error}
use quant_dominater.Orchestrator.Execute.World.{
  Ctx, live, cancel_called, deadline_passed, ctx_err, Env, EngineState, running, unstopped, Event,
  Outcome, fails, panics, stored, merged, published, World, with_run,
}
use quant_dominater.Orchestrator.Execute.Run.{store_run, save, transition, stop_state}

pub data Next : RunStatus → RunStatus → Type 0 where
  starts : Next building sandbox_starting
  probes : Next sandbox_starting health_checking
  loads : Next health_checking benchmarking
  validates : Next benchmarking validating
  scores : Next validating scoring
  finishes : Next scoring finished

-- The status of a run, and the statuses that its execution has set so far, latest first.
pub data Reached : RunStatus → List RunStatus → Type 0 where
  claimed : Reached building []
  built : Reached building (building ∷ [])
  next :
      {s t : RunStatus} {path : List RunStatus} → Reached s path → Next s t → Reached t (t ∷ path)

-- The state of an engine that `handle.Stop` was called for.
abbrev pub asked : Env → EngineState
asked env = stop_state env.stop running

-- `handle.Stop` did not stop the engine.
abbrev pub StopFails : Outcome (Unit {0}) → Type 0
StopFails o = ((e : Error) × (o ≡ fails e)) ⊎ (o ≡ panics)

-- The resource sample is read when `handle.Stop` has been called, and only a finished run is published.
abbrev pub EventOk : Env → Event → Type 0
EventOk env (merged e) = e ≡ asked env
EventOk env (published s) = s ≡ finished
EventOk env other = Unit

-- A status is set only while the context is live, the last one after a second look.
abbrev pub Allowed : Env → RunStatus → Type 0
Allowed env finished = env.ctx_recheck ≡ live
Allowed env s = env.ctx_at s ≡ live

pub data IsFailure : RunStatus → Type 0 where
  fails_failed : IsFailure failed
  fails_cancelled : IsFailure cancelled
  fails_timed_out : IsFailure timed_out

-- A run that went all the way, or as far as a failure, which is then its last status.
pub data Life (env : Env) : RunStatus → List RunStatus → Type 0 where
  whole :
      {path : List RunStatus}
      → Reached finished path
      → All (Allowed env) path
      → Life env finished path
  cut :
      {s t : RunStatus} {path : List RunStatus}
      → Reached s path
      → All (Allowed env) path
      → IsFailure t
      → Life env t (t ∷ path)
  -- `handle.Stop` panicked behind a failure.
  cut_again :
      {s t u : RunStatus} {path : List RunStatus}
      → Reached s path
      → All (Allowed env) path
      → IsFailure t
      → IsFailure u
      → env.stop ≡ panics
      → Life env u (u ∷ t ∷ path)

-- `if err := ctx.Err(); err != nil`, passed
pub Post-live :
    {E P : World → Type 0} (stage : String) (c : Ctx)
    → ((w : World) → P w → E w)
    → Post {π = Unit {0}} E P (λ _ w. P w × (c ≡ live)) (check stage (ctx_err c))
unfolding check
Post-live stage live h = record { at = λ w p. (p, refl) }
Post-live stage cancel_called h = record { at = h }
Post-live stage deadline_passed h = record { at = h }

module _ (w0 : World) (env : Env) where
  -- The run stands at a status with the trail behind it, and what `execute` may not touch is as it
  -- was in `w0`.
  pub record At (eng : EngineState) (s : RunStatus) (path : List RunStatus) (w : World)
      : Type 0 where
    pub engine : w.engine ≡ eng
    pub status : w.run.status ≡ s
    pub trail : w.trail ≡ path
    pub same_id : w.run.run_id ≡ w0.run.run_id
    pub same_slots : w.slots ≡ w0.slots
    pub same_cancels : w.cancels ≡ w0.cancels
    pub events_ok : All (EventOk env) w.events
    pub allowed : All (Allowed env) path
    pub origin : w.engine ≡ unstopped → StopFails env.stop

  -- Somewhere on the way.
  abbrev pub Left : World → Type 0
  Left w =
      (eng : EngineState) × (s : RunStatus) × (path : List RunStatus) × Reached s path
      × At eng s path w

  -- A step that leaves what `At` speaks of.
  pub At-same :
      (eng : EngineState) (s : RunStatus) (path : List RunStatus) (w w' : World)
      → At eng s path w
      → w'.engine ≡ w.engine
      → w'.run.status ≡ w.run.status
      → w'.run.run_id ≡ w.run.run_id
      → w'.trail ≡ w.trail
      → w'.slots ≡ w.slots
      → w'.cancels ≡ w.cancels
      → w'.events ≡ w.events
      → At eng s path w'
  At-same eng s path w w' at g a b c d e f = record {
    engine = g ∙ at.engine;
    status = a ∙ at.status;
    trail = c ∙ at.trail;
    same_id = b ∙ at.same_id;
    same_slots = d ∙ at.same_slots;
    same_cancels = e ∙ at.same_cancels;
    events_ok = subst (All (EventOk env)) (sym f) at.events_ok;
    allowed = at.allowed;
    origin = λ x. at.origin (sym g ∙ x);
  }

  pub store_run-At :
      (eng : EngineState) (s : RunStatus) (path : List RunStatus) (w : World)
      → At eng s path w
      → At eng s path (store_run env w).0
  unfolding store_run
  store_run-At eng s path w at = record {
    engine = at.engine;
    status = at.status;
    trail = at.trail;
    same_id = at.same_id;
    same_slots = at.same_slots;
    same_cancels = at.same_cancels;
    events_ok = All-append (EventOk env) w.events (stored w.run.status ∷ []) at.events_ok (tt, tt);
    allowed = at.allowed;
    origin = at.origin;
  }

  save-Post :
      (eng : EngineState) (s : RunStatus) (path : List RunStatus)
      → Post Left (At eng s path) (λ _. At eng s path) (save env)
  unfolding save
  save-Post eng s path = record { at = store_run-At eng s path }

  -- The life of the run is extended by one status.
  pub with_run-At :
      (eng : EngineState) (s t : RunStatus) (path : List RunStatus) (run : BenchmarkRun) (w : World)
      → At eng s path w
      → run.status ≡ t
      → run.run_id ≡ w.run.run_id
      → Allowed env t
      → At eng t (t ∷ path) (with_run run w)
  with_run-At eng s t path run w at st id al = record {
    engine = at.engine;
    status = st;
    trail = ap₂ ◌∷◌ st at.trail;
    same_id = id ∙ at.same_id;
    same_slots = at.same_slots;
    same_cancels = at.same_cancels;
    events_ok = at.events_ok;
    allowed = (al, at.allowed);
    origin = at.origin;
  }

  -- `transition` takes the run to the next status, or leaves it on the way.
  pub transition-Post :
      (stage : String) (eng : EngineState) (s t : RunStatus) (path : List RunStatus)
      → Reached s path
      → Reached t (t ∷ path)
      → (env.ctx_at t ≡ live → Allowed env t)
      → Post Left (At eng s path) (λ _. At eng t (t ∷ path)) (transition env stage t)
  unfolding transition
  transition-Post stage eng s t path r r' al =
      Post-bind _ _ (Post-live stage (env.ctx_at t) (λ w at. (eng, s, path, r, at))) λ _.
        Post-bind _ _
          (Post-modify _
            (λ w h. with_run-At eng s t path (touch (env.now t) t w.run) w h.0 refl refl (al h.1)))
          λ _.
            Post-bind _ _ (Post-check stage (env.run_spec t) (λ w at. (eng, t, t ∷ path, r', at)))
              λ _.
                Post-bind _ _ (save-Post eng t (t ∷ path))
                  λ e. Post-check stage e (λ w at. (eng, t, t ∷ path, r', at))
