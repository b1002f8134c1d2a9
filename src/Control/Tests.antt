-- ===== src/Control/Tests.antt =====
-- Runs of the control panel at concrete inputs.
use mathlib.Core.List.Permᴰ
use quant_dominater.Base.{String, true, false, Option, none, some, [], ◌∷◌, ◌≡◌, refl}
use quant_dominater.Base.Keys.{upsert}
use quant_dominater.Base.Int.{pos, negsuc}
use quant_dominater.Orchestrator.Store.{Error, message, ok, err}
use quant_dominater.Control.Model.{
  RunRequest, BenchmarkRun, Metrics, ScoreResult, Status, queued, starting, health_check, scoring,
  finished, failed, cancelled,
}
use quant_dominater.Control.Requests.{normalize_request, Normalized, normalize_request-Normalized}
use quant_dominater.Control.Store.{
  File, missing, holds, Os, Order, find, collect, load, all_encode, write, save, get,
}
use quant_dominater.Control.Store.Records.{Reorders}
use quant_dominater.Control.Store.Saves.{Saves, save-Saves}
use quant_dominater.Control.Execute.{
  Point, Env, running, stopped, World, body, fail_or_cancel, execute,
}
use quant_dominater.Control.Execute.Ending.{Executed, execute_ends}
use quant_dominater.Control.Manager.{
  Manager, Answers, new_run, create_run, CancelAnswers, cancel_run, shutdown, world_of, finish_run,
  new_manager,
}
use quant_dominater.Control.Slots.{Tidy}
use quant_dominater.Control.Sequences.{
  Steps, here, next, creates, Steps-bounded, drain, Steps-drains, Steps-admits,
}
use quant_dominater.Control.Cancel.{Cancels, cancel_run-Cancels}

program : Unit {0}
unfolding normalize_request find upsert collect load all_encode write save get body fail_or_cancel
    execute create_run cancel_run shutdown finish_run
program = tt

abbrev a_request : RunRequest
a_request = record {
  team_id = "";
  engine_mode = "";
  bot_count = pos 9000;
  orders_per_sec = pos 0;
  duration_sec = pos 30;
  seed = pos 7;
}

abbrev accepted : RunRequest
accepted = record {
  team_id = "local";
  engine_mode = "normal";
  bot_count = pos 5000;
  orders_per_sec = pos 2;
  duration_sec = pos 30;
  seed = pos 7;
}

normalized : normalize_request a_request ≡ ok accepted
unfolding program
normalized = refl

a_request_is_limited : Normalized a_request (normalize_request a_request)
a_request_is_limited = normalize_request-Normalized a_request

negative_refused :
    normalize_request (record a_request { duration_sec = negsuc 4 })
    ≡ err (message "duration_sec must be greater than zero")
unfolding program
negative_refused = refl

abbrev quiet : Os
quiet = record { mkdir = none; write_file = none; rename = none }

abbrev as_it_is : Order
as_it_is runs = runs

as_it_is-Reorders : Reorders as_it_is
as_it_is-Reorders runs = Permᴰ.refl runs

abbrev answers : String → Answers
answers id = record {
  run_id = id;
  artifact_dir = "runs";
  now = 100;
  mkdir = none;
  placeholders = none;
  os = quiet;
  order = as_it_is;
  run_spec = none;
  config = none;
}

abbrev a_run : String → Status → BenchmarkRun
a_run id s = record (new_run (answers id) accepted) { status = s }

-- The file has a null and a record that is written twice.
abbrev index : File
index =
    holds (
      some (a_run "r1" finished) ∷ none ∷ some (a_run "r2" queued) ∷ some (a_run "r2" scoring) ∷ [])

save-Saves_example :
    Saves (a_run "r1" cancelled) index (save quiet as_it_is (a_run "r1" cancelled) index)
save-Saves_example = save-Saves quiet as_it_is (a_run "r1" cancelled) index as_it_is-Reorders refl

first_stays :
    get "r1" (save quiet as_it_is (a_run "r1" cancelled) index).0 ≡ ok (a_run "r1" finished)
unfolding program
first_stays = refl

last_record_counts : get "r2" index ≡ ok (a_run "r2" scoring)
unfolding program
last_record_counts = refl

abbrev some_metrics : Metrics
some_metrics = record {
  run_id = "r2";
  bots = pos 1;
  orders_sent = pos 1;
  acks_received = pos 1;
  fills_received = pos 0;
  timeouts = pos 0;
  connect_errors = pos 0;
  tps = 0;
  p50_ms = 0;
  p90_ms = 0;
  p99_ms = 0;
  events_out = "";
  outputs_out = "";
  raw_output = "";
}

abbrev some_score : ScoreResult
some_score = record {
  run_id = "r2";
  score = 0;
  valid = true;
  latency_score = 0;
  throughput_score = 0;
  stability_score = 0;
  resource_score = 0;
  correctness_gate = "passed";
  failure_reason = "";
}

abbrev all_well : Env
all_well = record {
  start = λ run. ok "ws://127.0.0.1:9000/ws";
  botfleet = λ run endpoint. ok some_metrics;
  validator = λ run. ok (record {
    run_id = run.run_id;
    valid = true;
    fills_checked = pos 0;
    reason = "";
    first_bad_seq = pos 0;
  });
  calculate_score = λ run. some_score;
  score_json = none;
  cancelled_at_recheck = false;
  cancelled_at_fail = false;
  run_spec = λ p. none;
  now = λ p. 200;
  os = λ p. quiet;
  order = λ p. as_it_is;
  others = λ p file. file;
  cleanup = none;
  cancelled_at_exit = false;
  text_of = λ e. "error";
}

-- The file `run_spec.json` cannot be written when the engine has been started.
abbrev no_run_spec : Point → Option Error
no_run_spec Point.at_health = some (message "no space left on device")
no_run_spec other = none

abbrev disk_full : Env
disk_full = record all_well { run_spec = no_run_spec }

abbrev idle : Manager
idle = new_manager missing

abbrev one_run : Manager
one_run = (create_run (answers "r2") a_request idle).1

abbrev launched : World
launched = world_of (a_run "r2" queued) one_run

execute_ends_example : Executed disk_full launched (execute disk_full launched)
execute_ends_example =
    execute_ends disk_full launched (record { engine = refl; cleanup = refl; trail = refl })

engine_stays :
    ((execute disk_full launched).engine ≡ running)
    × ((execute disk_full launched).trail ≡ failed ∷ health_check ∷ starting ∷ [])
unfolding program
engine_stays = (refl, refl)

engine_stops :
    ((execute all_well launched).engine ≡ stopped)
    × ((execute all_well launched).run.status ≡ finished)
unfolding program
engine_stops = (refl, refl)

reach_one : Steps idle one_run
reach_one = next idle one_run one_run (creates (answers "r2") a_request idle) (here one_run)

Steps-bounded_example : Tidy one_run
Steps-bounded_example = Steps-bounded missing one_run reach_one

one_slot : one_run.slots ≡ 1
unfolding program
one_slot = refl

Steps-drains_example :
    let m' = drain (λ i. all_well) 1 one_run in (m'.live ≡ []) × (m'.slots ≡ 0) × (m'.cancels ≡ [])
unfolding program
Steps-drains_example = Steps-drains missing one_run reach_one (λ i. all_well)

Steps-admits_example :
    (create_run (answers "r3") a_request (finish_run all_well 0 one_run)).0 ≡ ok (a_run "r3" queued)
unfolding program
Steps-admits_example =
    Steps-admits missing one_run reach_one (a_run "r2" queued) 0 refl all_well (answers "r3")
      a_request accepted
      (record {
        normal = refl;
        mkdir = refl;
        placeholders = refl;
        run_spec = refl;
        config = refl;
        stored = refl;
      })

abbrev a_cancel : CancelAnswers
a_cancel = record { now = 150; os = quiet; order = as_it_is; others = λ file. file }

cancel_run-Cancels_example : Cancels "r2" (cancel_run a_cancel "r2" one_run)
cancel_run-Cancels_example = cancel_run-Cancels a_cancel "r2" one_run as_it_is-Reorders
