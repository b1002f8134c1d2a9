-- ===== src/Control/Execute/Standing.antt =====
-- The parts of `execute` of services/control-panel/internal/run/manager.go: where it stands between them.
use quant_dominater.Base.{String, Bool, true, false, List, [], ◌∷◌, ◌≡◌, refl, ap, ◌∙◌}
use quant_dominater.Base.Exits.{Post, Post-bind, Post-modify, Post-check, modify, ◌>>=◌}
use quant_dominater.Orchestrator.Store.{Result, ok, err}
use quant_dominater.Control.Model.{
  Status, starting, health_check, benchmarking, validating, scoring,
}
use quant_dominater.Control.Execute.{
  Point, Env, EngineState, not_started, running, World, M, set_status, store_run, saved, save, call,
}

-- The statuses that an execution has set at each stage, latest first.
abbrev pub path_starting : List Status
path_starting = starting ∷ []

abbrev pub path_health : List Status
path_health = health_check ∷ path_starting

abbrev pub path_bots : List Status
path_bots = benchmarking ∷ path_health

abbrev pub path_validating : List Status
path_validating = validating ∷ path_bots

abbrev pub path_scoring : List Status
path_scoring = scoring ∷ path_validating

-- Where the body can be left early: the engine, whether its clean-up is deferred, and the statuses
-- that were set.
pub data Leaving : EngineState → Bool → List Status → Type 0 where
  asked : Leaving not_started false path_starting
  probed : Leaving running false path_health
  loaded : Leaving running true path_bots
  judged : Leaving running true path_validating
  graded : Leaving running true path_scoring

-- A call of a component, as a rule.
pub Post-call :
    {A : Type 0} {E P : World → Type 0} (stage : String) (o : Result A)
    → ((w : World) → P w → E w)
    → Post E P (λ a w. P w × (o ≡ ok a)) (call stage o)
unfolding call
Post-call stage (ok a) h = record { at = λ w p. (p, refl) }
Post-call stage (err e) h = record { at = h }

module _ (w0 : World) where
  -- What the execution that was started at `w0` has done and may not touch.
  pub record At (eng : EngineState) (deferred : Bool) (path : List Status) (w : World)
      : Type 0 where
    pub engine : w.engine ≡ eng
    pub cleanup : w.cleanup_deferred ≡ deferred
    pub trail : w.trail ≡ path
    pub same_id : w.run.run_id ≡ w0.run.run_id
    pub same_slots : w.slots ≡ w0.slots
    pub same_cancels : w.cancels ≡ w0.cancels

  abbrev pub Left : World → Type 0
  Left w =
      (eng : EngineState) × (deferred : Bool) × (path : List Status) × Leaving eng deferred path
      × At eng deferred path w

  -- A step on the run and the file alone.
  pub At-same :
      {eng : EngineState} {deferred : Bool} {path : List Status} {w w' : World}
      → At eng deferred path w
      → w'.engine ≡ w.engine
      → w'.cleanup_deferred ≡ w.cleanup_deferred
      → w'.trail ≡ w.trail
      → w'.run.run_id ≡ w.run.run_id
      → w'.slots ≡ w.slots
      → w'.cancels ≡ w.cancels
      → At eng deferred path w'
  At-same at a b c d e f = record {
    engine = a ∙ at.engine;
    cleanup = b ∙ at.cleanup;
    trail = c ∙ at.trail;
    same_id = d ∙ at.same_id;
    same_slots = e ∙ at.same_slots;
    same_cancels = f ∙ at.same_cancels;
  }

  module _ {eng : EngineState} {deferred : Bool} {path : List Status} where
    pub store_run-At :
        (env : Env) (p : Point) (w : World)
        → At eng deferred path w
        → At eng deferred path (store_run env p w).0
    unfolding store_run
    store_run-At env p w at = At-same at refl refl refl refl refl refl

    pub saved-Post :
        (env : Env) (p : Point)
        → Post Left (At eng deferred path) (λ _. At eng deferred path) (saved env p)
    unfolding saved
    saved-Post env p = record { at = store_run-At env p }

    pub save-Post :
        (env : Env) (stage : String) (p : Point)
        → Leaving eng deferred path
        → Post Left (At eng deferred path) (λ _. At eng deferred path) (save env stage p)
    unfolding save
    save-Post env stage p l =
        Post-bind _ _ (Post-modify _ (λ w at. At-same at refl refl refl refl refl refl)) λ _.
          Post-bind _ _ (saved-Post env p) λ e.
            Post-bind _ _ (Post-check stage e leave) λ _. Post-check stage (env.run_spec p) leave
      where
        leave : (w : World) → At eng deferred path w → Left w
        leave w at = (eng, deferred, path, l, at)

    pub set_status-At :
        (s : Status) (w : World)
        → At eng deferred path w
        → At eng deferred (s ∷ path) (set_status s w)
    set_status-At s w at = record {
      engine = at.engine;
      cleanup = at.cleanup;
      trail = ap (λ t. s ∷ t) at.trail;
      same_id = at.same_id;
      same_slots = at.same_slots;
      same_cancels = at.same_cancels;
    }

  -- A new status, and the save of it.
  pub enter-Post :
      {eng : EngineState} {deferred : Bool} {path : List Status} {A : Type 0}
      {Q : A → World → Type 0} (env : Env) (stage : String) (p : Point) (s : Status)
      (next : Unit {0} → M A)
      → Leaving eng deferred (s ∷ path)
      → ((u : Unit {0}) → Post Left (At eng deferred (s ∷ path)) Q (next u))
      → Post Left
          (At eng deferred path)
          Q
          (modify (set_status s) >>= λ _. save env stage p >>= next)
  enter-Post env stage p s next l h =
      Post-bind _ _ (Post-modify _ (set_status-At s)) λ _. Post-bind _ _ (save-Post env stage p l) h

  pub leave :
      {eng : EngineState} {deferred : Bool} {path : List Status}
      → Leaving eng deferred path
      → (w : World) → At eng deferred path w
      → Left w
  leave l w at = (_, _, _, l, at)
