-- ===== src/Orchestrator/Execute/World.antt =====
-- The setting of `execute` of services/orchestrator/internal/orchestrator/manager.go: the calls that
-- it makes into other components, the state that it changes, and its early returns as a monad.
use quant_dominater.Base.{ℕ, String, Option, none, some, List, [], ◌∷◌, ◌++◌}
use quant_dominater.Base.Float.{Float64}
use quant_dominater.Base.Exits.{Routine, done, stop, panicked}
use quant_dominater.Orchestrator.Model.{
  Time, BenchmarkRun, Metrics, ValidationResult, ScoreResult, Submission, RunStatus,
}
use quant_dominater.Orchestrator.Store.{
  Os, Error, canceled, deadline_exceeded, Result, ok, err, File,
}

-- What a call into another component does: `panics` unwinds the goroutine.
pub data Outcome (A : Type 0) : Type 0 where
  returns : A → Outcome A
  fails : Error → Outcome A
  panics : Outcome A

-- `ctx.Err()`: nil, `context.Canceled` or `context.DeadlineExceeded`
pub data Ctx : Type 0 where
  live cancel_called deadline_passed : Ctx

abbrev pub ctx_err : Ctx → Option Error
ctx_err live = none
ctx_err cancel_called = some canceled
ctx_err deadline_passed = some deadline_exceeded

-- What the calls of one execution answer. A status names the save that stores it.
pub record Env : Type 0 where
  pub artifact_dir : String
  pub mkdir : Option Error
  pub placeholders : Option Error
  pub config_json : Option Error
  pub build : BenchmarkRun → Submission → Outcome (Unit {0})
  pub start : BenchmarkRun → Outcome String
  -- `handle.Stop`
  pub stop : Outcome (Unit {0})
  pub botfleet : BenchmarkRun → String → Outcome Metrics
  pub resource_sample : Option (Float64 × Float64)
  pub validator : BenchmarkRun → Outcome ValidationResult
  pub score : BenchmarkRun → Metrics → ValidationResult → Outcome ScoreResult
  pub publish : BenchmarkRun → Outcome (Unit {0})
  pub ctx_at : RunStatus → Ctx
  pub ctx_recheck : Ctx
  pub ctx_at_fail : Ctx
  pub run_spec : RunStatus → Option Error
  pub now : RunStatus → Time
  pub os : RunStatus → Os
  pub others : RunStatus → File → File
  -- `err.Error()`
  pub text_of : Error → String

-- The contestant's engine: not yet started, running, stopped by `stopOnce`, or such that `stopOnce` has
-- called `handle.Stop`, which failed or panicked.
pub data EngineState : Type 0 where
  not_started running stopped unstopped : EngineState

-- What an execution does that is seen outside, in order.
pub data Event : Type 0 where
  stored : RunStatus → Event
  merged : EngineState → Event
  published : RunStatus → Event
  released : Event

pub record World : Type 0 where
  pub run : BenchmarkRun
  pub file : File
  pub engine : EngineState
  pub cancels : List String
  pub slots : ℕ
  pub trail : List RunStatus
  pub events : List Event

abbrev pub M : Type 0 → Type 0
M A = Routine (Unit {0}) Error World A

-- A call of another component, with that test behind it.
unfoldable pub call : {A : Type 0} → String → Outcome A → M A
call stage (returns a) w = (done a, w)
call stage (fails e) w = (stop stage e, w)
call stage panics w = (panicked tt, w)

unfoldable pub lift : {A : Type 0} → String → Result A → M A
lift stage (ok a) w = (done a, w)
lift stage (err e) w = (stop stage e, w)

abbrev pub emit : Event → World → World
emit ev w = record w { events = w.events ++ ev ∷ [] }

-- `run.Status = s`, noted in the trail
abbrev pub with_run : BenchmarkRun → World → World
with_run run w = record w { run = run; trail = run.status ∷ w.trail }
