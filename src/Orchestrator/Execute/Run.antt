-- ===== src/Orchestrator/Execute/Run.antt =====
-- `execute` of services/orchestrator/internal/orchestrator/manager.go, statement by statement.
use quant_dominater.Base.Exits.{Exit, done, stop, panicked, ◌>>=◌, ◌>>◌, gets, modify, check}
use quant_dominater.Base.{
  ◌-◌, String, Bool, true, false, not, ◌&&◌, Option, none, some, if◌then◌else◌,
}
use quant_dominater.Base.Keys.{remove_cancel}
use quant_dominater.Base.Float.{Float64, is_nan, is_inf, float_lt}
use quant_dominater.Orchestrator.Model.{
  Time, unix, BenchmarkRun, Metrics, Submission, RunStatus, queued, building, sandbox_starting,
  health_checking, benchmarking, validating, scoring, finished, failed, cancelled, timed_out, touch,
}
use quant_dominater.Orchestrator.Store.{Error, message, save_run, get_submission}
use quant_dominater.Orchestrator.Execute.World.{
  Outcome, returns, fails, panics, Ctx, live, cancel_called, deadline_passed, ctx_err, Env,
  EngineState, not_started, running, stopped, unstopped, stored, merged, published, released, World,
  M, call, lift, emit, with_run,
}

-- `m.store.SaveRun`, behind what other processes wrote; its error is the second part.
unfoldable pub store_run : Env → World → World × Option Error
store_run env w =
    let st = w.run.status in
    let (file', e) = save_run (env.os st) w.run (env.others st w.file) in
    (emit (stored st) (record w { file = file' }), e)

unfoldable pub save : Env → M (Option Error)
save env w = let (w', e) = store_run env w in (done e, w')

-- `transition`
unfoldable pub transition : Env → String → RunStatus → M (Unit {0})
transition env stage st = do
  check stage (ctx_err (env.ctx_at st))
  modify (λ w. with_run (touch (env.now st) st w.run) w)
  check stage (env.run_spec st)
  e ← save env
  check stage e

-- What the engine is when `handle.Stop` has answered
abbrev pub stop_answer : Outcome (Unit {0}) → EngineState
stop_answer (returns u) = stopped
stop_answer (fails e) = unstopped
stop_answer panics = unstopped

-- `sync.Once`, behind the deferred call that a started engine has
abbrev pub stop_state : Outcome (Unit {0}) → EngineState → EngineState
stop_state answer running = stop_answer answer
stop_state answer not_started = not_started
stop_state answer stopped = stopped
stop_state answer unstopped = unstopped

abbrev pub does_panic : Outcome (Unit {0}) → Bool
does_panic panics = true
does_panic other = false

abbrev pub stop_panics : Outcome (Unit {0}) → EngineState → Bool
stop_panics answer running = does_panic answer
stop_panics answer other = false

-- What `stopEngine` leaves; an error of `handle.Stop` is only logged.
abbrev pub stop_engine : Env → World → World
stop_engine env w = record w { engine = stop_state env.stop w.engine }

-- `stopEngine` before the resource sample is read
unfoldable pub stop_now : Env → M (Unit {0})
stop_now env w = (if stop_panics env.stop w.engine then panicked tt else done tt, stop_engine env w)

-- `validResourceValue`
abbrev pub valid_resource_value : Float64 → Bool
valid_resource_value v = not (is_nan v) && not (is_inf v) && not (float_lt v 0)

-- `mergeResourceSample`, on the file's content where it can be read and parsed
unfoldable pub merge_resource_sample : Option (Float64 × Float64) → Metrics → Metrics
merge_resource_sample none metrics = metrics
merge_resource_sample (some (cpu, mem)) metrics =
    if valid_resource_value cpu && valid_resource_value mem
    then record metrics { cpu_pct_peak = cpu; mem_mb_peak = mem }
    else metrics

-- The record that `fail` and the end of `execute` stamp as ended.
abbrev pub ended : Time → RunStatus → BenchmarkRun → BenchmarkRun
ended now st run = record run {
  status = st;
  updated_at = now;
  updated_at_unix = unix now;
  finished_at = some now;
  finished_at_unix = unix now;
}

-- `fail`'s status and reason, from the context and the text of the error
abbrev pub failed_as : Ctx → String → RunStatus × String
failed_as cancel_called reason = (cancelled, "cancelled")
failed_as deadline_passed reason = (timed_out, "run timed out")
failed_as live reason = (failed, reason)

-- `fail`; the errors of its writes are dropped
unfoldable pub fail : Env → String → Error → World → World
unfolding store_run
fail env stage e w =
    let (st, reason) = failed_as env.ctx_at_fail (env.text_of e) in
    let run = record w.run { failure_reason = reason; failure_stage = stage } in
    (store_run env (with_run (ended (env.now st) st run) w)).0

-- `m.store.GetSubmission`
unfoldable pub load_submission : Env → M Submission
load_submission env = do
  modify (λ w. record w { file = env.others queued w.file })
  found ← gets (λ w. get_submission w.run.submission_id w.file)
  lift "LOAD_SUBMISSION" found

-- from `os.MkdirAll` to the submission
unfoldable pub prepare : Env → M Submission
prepare env = do
  modify (λ w. record w { run = record w.run { artifact_dir = env.artifact_dir } })
  check "PREPARE_ARTIFACTS" env.mkdir
  check "PREPARE_ARTIFACTS" env.placeholders
  check "PREPARE_ARTIFACTS" env.config_json
  load_submission env

-- the build and the start of the engine, up to the deferred `stopEngine`
unfoldable pub launch : Env → Submission → M String
launch env submission = do
  transition env "BUILDING" building
  run ← gets (λ w. w.run)
  call "BUILDING" (env.build run submission)
  transition env "SANDBOX_STARTING" sandbox_starting
  run' ← gets (λ w. w.run)
  endpoint ← call "SANDBOX_STARTING" (env.start run')
  modify (λ w. record w { engine = running })
  gets (λ w. endpoint)

-- the health check and the benchmark, up to the merge of the resource sample
unfoldable pub benchmark : Env → String → M Metrics
benchmark env endpoint = do
  modify (λ w. record w {
    run = record w.run { config = record w.run.config { engine_endpoint = endpoint } };
  })
  transition env "HEALTHCHECKING" health_checking
  transition env "BENCHMARKING" benchmarking
  run ← gets (λ w. w.run)
  metrics ← call "BENCHMARKING" (env.botfleet run endpoint)
  stop_now env
  modify (λ w. emit (merged w.engine) w)
  gets (λ w. merge_resource_sample env.resource_sample metrics)

-- the validation and the score, up to the second look at the context
unfoldable pub judge : Env → Metrics → M (Unit {0})
judge env metrics = do
  transition env "VALIDATING" validating
  run ← gets (λ w. w.run)
  validation ← call "VALIDATING" (env.validator run)
  modify (λ w. record w { run = record w.run { valid = some validation.valid } })
  transition env "SCORING" scoring
  run' ← gets (λ w. w.run)
  result ← call "SCORING" (env.score run' metrics validation)
  modify (λ w. record w { run = record w.run { score = result.score } })
  check "SCORING" (ctx_err env.ctx_recheck)

-- the end of the happy path; the errors of the writes are dropped, that of the publisher is logged
abbrev pub finish : Env → World → World
finish env w = (store_run env (with_run (ended (env.now finished) finished w.run) w)).0

abbrev pub publish_as : Outcome (Unit {0}) → M (Unit {0})
publish_as (returns _) w = (done tt, emit (published w.run.status) w)
publish_as (fails _) w = (done tt, emit (published w.run.status) w)
publish_as panics w = (panicked tt, w)

unfoldable pub publish : Env → M (Unit {0})
publish env w = publish_as (env.publish w.run) w

unfoldable pub body : Env → M (Unit {0})
unfolding ◌>>=◌ call lift prepare launch benchmark judge transition save store_run load_submission
    stop_now publish
body env = do
  submission ← prepare env
  endpoint ← launch env submission
  metrics ← benchmark env endpoint
  judge env metrics
  modify (finish env)
  publish env

-- the deferred clean-up: the cancel function goes, and the build slot is free again
abbrev pub clean_up : World → World
clean_up w =
    emit released (record w { cancels = remove_cancel w.run.run_id w.cancels; slots = w.slots - 1 })

-- The deferred `stopEngine`, and the recovery where it panics
abbrev pub deferred_stop : Env → World → World
deferred_stop env w =
    if stop_panics env.stop w.engine
    then fail env "PANIC" (message "panic on execute path") (stop_engine env w)
    else stop_engine env w

-- The deferred calls, last one first: `stopEngine`, the recovery, the clean-up. `m.fail` of an early
-- return comes before them.
abbrev pub unwind : Env → Exit (Unit {0}) Error (Unit {0}) → World → World
unwind env (done _) w = clean_up (deferred_stop env w)
unwind env (stop stage e) w = clean_up (deferred_stop env (fail env stage e w))
unwind env (panicked tt) w =
    clean_up (fail env "PANIC" (message "panic on execute path") (stop_engine env w))

-- `execute`
unfoldable pub execute : Env → World → World
execute env w = let (exit, w') = body env w in unwind env exit w'
