-- ===== src/Control/Execute.antt =====
-- `execute` of services/control-panel/internal/run/manager.go, statement by statement. The state of
-- the goroutine is a `World`; the calls that it makes into other components are answered by an `Env`.
pub mod Standing
pub mod Stages
pub mod Ending
use quant_dominater.Base.{
  ℕ, ◌-◌, String, Bool, true, false, Option, none, some, List, [], ◌∷◌, str_eq, if◌then◌else◌,
}
use quant_dominater.Base.Keys.{remove_cancel}
use quant_dominater.Base.Exits.{
  Exit, done, stop, panicked, Routine, ◌>>=◌, ◌>>◌, pure, gets, modify, check,
}
use quant_dominater.Orchestrator.Store.{Error, canceled, Result, ok, err}
use quant_dominater.Control.Model.{
  Time, BenchmarkRun, Metrics, ValidationResult, ScoreResult, Status, starting, health_check,
  benchmarking, validating, scoring, finished, failed, cancelled,
}
use quant_dominater.Control.Store as Store
use quant_dominater.Control.Store.{File, Os, Order}

-- The saves of one execution: `metrics_saved` is the second one of the status BENCHMARKING.
pub data Point : Type 0 where
  at_start at_health at_bots metrics_saved at_validator at_score at_end : Point

-- What the calls of one execution answer. `others` is what other goroutines do to the file before a
-- save.
pub record Env : Type 0 where
  pub start : BenchmarkRun → Result String
  pub botfleet : BenchmarkRun → String → Result Metrics
  pub validator : BenchmarkRun → Result ValidationResult
  pub calculate_score : BenchmarkRun → ScoreResult
  pub score_json : Option Error
  pub cancelled_at_recheck : Bool
  pub cancelled_at_fail : Bool
  pub run_spec : Point → Option Error
  pub now : Point → Time
  pub os : Point → Os
  pub order : Point → Order
  pub others : Point → File → File
  -- what the function that `Start` returned answers
  pub cleanup : Option Error
  -- whether the context is cancelled when the goroutine ends
  pub cancelled_at_exit : Bool
  -- `err.Error()`
  pub text_of : Error → String

-- The engine's process: not started, running, dead, or such that the function that `Start` returned
-- was called and gave an error.
pub data EngineState : Type 0 where
  not_started running stopped unstopped : EngineState

-- `cleanup_deferred`: the second `defer` has been reached. `slots` is the length of the channel
-- `sem`, and `trail` the statuses that the execution has set, latest first.
pub record World : Type 0 where
  pub run : BenchmarkRun
  pub file : File
  pub engine : EngineState
  pub cleanup_deferred : Bool
  pub cancels : List String
  pub slots : ℕ
  pub trail : List Status

abbrev pub M : Type 0 → Type 0
M A = Routine ⊥ Error World A

-- `r.Status = s`
abbrev pub set_status : Status → World → World
set_status s w = record w { run = record w.run { status = s }; trail = s ∷ w.trail }

-- `m.store.Save`
unfoldable pub store_run : Env → Point → World → World × Option Error
store_run env p w =
    let (file', e) = Store.save (env.os p) (env.order p) w.run (env.others p w.file) in
    (record w { file = file' }, e)

unfoldable pub saved : Env → Point → M (Option Error)
saved env p w = let (w', e) = store_run env p w in (done e, w')

-- `m.save`, with `if err != nil` behind it
unfoldable pub save : Env → String → Point → M (Unit {0})
save env stage p = do
  modify (λ w. record w { run = record w.run { updated_at = env.now p } })
  e ← saved env p
  check stage e
  check stage (env.run_spec p)

-- A call of another component, with `if err != nil` behind it.
unfoldable pub call : {A : Type 0} → String → Result A → M A
call stage (ok a) w = (done a, w)
call stage (err e) w = (stop stage e, w)

-- `startEngine`
unfoldable pub start_engine : Env → M String
start_engine env = do
  modify (set_status starting)
  save env "STARTING_ENGINE" Point.at_start
  run ← gets (λ w. w.run)
  endpoint ← call "STARTING_ENGINE" (env.start run)
  modify (λ w. record w { engine = running })
  modify (set_status health_check)
  save env "STARTING_ENGINE" Point.at_health
  gets (λ w. endpoint)

-- `runBots`
unfoldable pub run_bots : Env → String → M Metrics
run_bots env endpoint = do
  modify (set_status benchmarking)
  save env "BENCHMARKING" Point.at_bots
  run ← gets (λ w. w.run)
  call "BENCHMARKING" (env.botfleet run endpoint)

-- `r.Metrics = metrics`, and its save
unfoldable pub keep_metrics : Env → Metrics → M (Unit {0})
keep_metrics env metrics = do
  modify (λ w. record w { run = record w.run { metrics = some metrics } })
  save env "SAVING_METRICS" Point.metrics_saved

-- `runValidator`
unfoldable pub run_validator : Env → M ValidationResult
run_validator env = do
  modify (set_status validating)
  save env "VALIDATING" Point.at_validator
  run ← gets (λ w. w.run)
  call "VALIDATING" (env.validator run)

abbrev pub recheck : Env → Option Error
recheck env = if env.cancelled_at_recheck then some canceled else none

-- From `r.Status = StatusScoring` to the second look at the context.
unfoldable pub score_run : Env → M (Unit {0})
score_run env = do
  modify (set_status scoring)
  save env "SCORING" Point.at_score
  modify (λ w. record w { run = record w.run { score = (env.calculate_score w.run).score } })
  check "SCORING" env.score_json
  check "SCORING" (recheck env)

-- The end of a run: `FinishedAt`, `UpdatedAt` and the save, whose error is dropped.
abbrev pub end_run : Env → World → World
end_run env w =
    (store_run env Point.at_end (record w {
      run = record w.run {
        updated_at = env.now Point.at_end;
        finished_at = some (env.now Point.at_end);
      };
    })).0

-- From `r.Validation = validation` to the end of the body.
unfoldable pub conclude : Env → ValidationResult → M (Unit {0})
conclude env validation = do
  modify (λ w. record w {
    run = record w.run { validation = some validation; valid = some validation.valid };
  })
  score_run env
  modify (λ w. end_run env (set_status finished w))

-- The body of `execute`.
unfoldable pub body : Env → M (Unit {0})
unfolding ◌>>=◌ call start_engine run_bots keep_metrics run_validator score_run save saved store_run
    conclude
body env = do
  endpoint ← start_engine env
  modify (λ w. record w { cleanup_deferred = true })
  metrics ← run_bots env endpoint
  keep_metrics env metrics
  validation ← run_validator env
  conclude env validation

-- `failOrCancel`
unfoldable pub fail_or_cancel : Env → String → Error → World → World
unfolding store_run
fail_or_cancel env stage e w =
    let failure : Status = if env.cancelled_at_fail then cancelled else failed in
    let reason = if env.cancelled_at_fail then "cancelled" else env.text_of e in
    let stopped_run = record w.run { failure_stage = stage; failure_reason = reason } in
    end_run env (set_status failure (record w { run = stopped_run }))

abbrev pub stop_state : Option Error → EngineState → EngineState
stop_state none running = stopped
stop_state (some e) running = unstopped
stop_state answer other = other

-- `exec.CommandContext` kills the process when the context is cancelled.
abbrev pub killed : Bool → EngineState → EngineState
killed false engine = engine
killed true not_started = not_started
killed true other = stopped

-- The deferred call of `cleanup`, whose error is only logged, and what the context does to the engine.
abbrev pub clean_engine : Option Error → Bool → World → World
clean_engine answer dead w = record w {
  engine = killed dead (if w.cleanup_deferred then stop_state answer w.engine else w.engine);
}

-- A context that was cancelled stays so.
abbrev pub cancelled_by_exit : Env → Bool
cancelled_by_exit env = if env.cancelled_at_fail then true else env.cancelled_at_exit

-- The first `defer` of `execute`.
abbrev pub release : World → World
release w = record w { cancels = remove_cancel w.run.run_id w.cancels; slots = w.slots - 1 }

-- The return from the body, then the deferred calls, last one first. Nothing of the
-- body panics.
abbrev pub unwind : Env → Exit ⊥ Error (Unit {0}) → World → World
unwind env (done _) w = release (clean_engine env.cleanup env.cancelled_at_exit w)
unwind env (stop stage e) w =
    release (clean_engine env.cleanup (cancelled_by_exit env) (fail_or_cancel env stage e w))
unwind env (panicked p) w = absurd p

-- `execute`
unfoldable pub execute : Env → World → World
execute env w = let (exit, w') = body env w in unwind env exit w'
