-- ===== src/Orchestrator/Samples.antt =====
-- A small index of runs, and answers of the components, for the tests of the orchestrator.
use quant_dominater.Base.{
  ◌+◌, String, Bool, true, false, none, some, List, [], ◌∷◌, ◌≡◌, leb, if◌then◌else◌, bit, count_if,
  count_if-cons, arith, Bool-cases, inl, inr, refl,
}
use quant_dominater.Base.Int.{pos}
use quant_dominater.Orchestrator.Model.{
  Time, BenchmarkRun, RunStatus, Submission, Metrics, ValidationResult, ScoreResult, queued,
  building, cancelled,
}
use quant_dominater.Orchestrator.Store.{Os, message, File, holds, Sort}
use quant_dominater.Orchestrator.Store.Claims.{KeepsRecords}
use quant_dominater.Orchestrator.Execute.World.{Env, returns, live, World, not_started}

abbrev pub a_run : String → RunStatus → Time → BenchmarkRun
a_run id st created = record {
  run_id = id;
  submission_id = "sub";
  team_id = "team";
  status = st;
  benchmark_seed = pos 42;
  sandbox = record { cpu_limit = "2"; memory_limit = "4g"; network_egress = false };
  config = record {
    bot_count = pos 10;
    rate_per_bot = pos 5;
    duration_sec = pos 30;
    warmup_sec = pos 0;
    engine_endpoint = "";
  };
  artifact_dir = "";
  valid = none;
  score = 0;
  failure_stage = "";
  failure_reason = "";
  created_at_unix = pos 0;
  updated_at_unix = pos 0;
  finished_at_unix = pos 0;
  created_at = created;
  updated_at = created;
  finished_at = none;
}

abbrev pub a_submission : Submission
a_submission = record {
  submission_id = "sub";
  team_id = "team";
  language = "go";
  protocol = "ws";
  artifact = record {
    artifact_id = "a";
    uri = "file://a";
    sha256 = "";
    size_bytes = pos 10;
    filename = "a.zip";
    content_type = "";
  };
  created_at_unix = pos 0;
  created_at = 1;
}

-- Run "r2" was queued first.
abbrev pub index : File
index = holds (record {
  submissions = a_submission ∷ [];
  runs = a_run "r1" queued 20 ∷ a_run "r2" queued 10 ∷ a_run "r3" cancelled 5 ∷ [];
})

abbrev pub quiet : Os
quiet = record {
  lock_mkdir = none;
  lock_open = none;
  flock = none;
  mkdir = none;
  write_file = none;
  rename = none;
}

abbrev pub disk_full : Os
disk_full = record quiet { write_file = some (message "no space left on device") }

pub insert_by_created : BenchmarkRun → List BenchmarkRun → List BenchmarkRun
insert_by_created run [] = run ∷ []
insert_by_created run (r ∷ rs) =
    if leb run.created_at r.created_at then run ∷ r ∷ rs else r ∷ insert_by_created run rs

-- An insertion sort by the time of creation.
unfoldable pub sort_by_created : Sort
unfolding insert_by_created
sort_by_created [] = []
sort_by_created (run ∷ runs) = insert_by_created run (sort_by_created runs)

insert-counts :
    (p : BenchmarkRun → Bool) (run : BenchmarkRun) (runs : List BenchmarkRun)
    → count_if p (insert_by_created run runs) ≡ bit (p run) + count_if p runs
unfolding insert_by_created
insert-counts p run [] = count_if-cons p run []
insert-counts p run (r ∷ rs) = elim (Bool-cases (leb run.created_at r.created_at)) [
  | inl e ↦ rw (e, insert_by_created) (count_if-cons p run (r ∷ rs))
  | inr e ↦
      rw (e, insert_by_created)
        (omega (
          arith,
          count_if-cons p r (insert_by_created run rs),
          count_if-cons p r rs,
          insert-counts p run rs,
        ))
]

pub sort_by_created-KeepsRecords : KeepsRecords sort_by_created
unfolding sort_by_created
sort_by_created-KeepsRecords [] p = refl
sort_by_created-KeepsRecords (run ∷ runs) p = omega (
  arith,
  insert-counts p run (sort_by_created runs),
  count_if-cons p run runs,
  sort_by_created-KeepsRecords runs p,
)

abbrev some_metrics : Metrics
some_metrics = record {
  run_id = "r1";
  bots = pos 10;
  orders_sent = pos 1500;
  acks_received = pos 1500;
  fills_received = pos 700;
  timeouts = pos 0;
  connect_errors = pos 0;
  tps = 0x4049_0000_0000_0000;
  peak_tps = 0;
  p50_ms = 0;
  p90_ms = 0;
  p99_ms = 0x3ff0_0000_0000_0000;
  cpu_pct_peak = 0;
  mem_mb_peak = 0;
  events_out = "";
  outputs_out = "";
  raw_output = "";
}

abbrev passed : ValidationResult
passed = record {
  run_id = "r1";
  valid = true;
  fills_checked = pos 700;
  reason = "";
  first_bad_seq = pos 0;
}

-- 95.5
abbrev pub good_score : ScoreResult
good_score = record {
  run_id = "r1";
  score = 0x4057_e000_0000_0000;
  valid = true;
  latency_score = 0;
  throughput_score = 0;
  stability_score = 0;
  resource_score = 0;
  correctness_gate = "passed";
  failure_reason = "";
}

-- Every component does its work.
abbrev pub all_well : Env
all_well = record {
  artifact_dir = "runs/r1";
  mkdir = none;
  placeholders = none;
  config_json = none;
  build = λ run sub. returns tt;
  start = λ run. returns "ws://127.0.0.1:9000/ws";
  botfleet = λ run endpoint. returns some_metrics;
  resource_sample = none;
  validator = λ run. returns passed;
  score = λ run metrics validation. returns good_score;
  publish = λ run. returns tt;
  ctx_at = λ st. live;
  ctx_recheck = live;
  ctx_at_fail = live;
  run_spec = λ st. none;
  now = λ st. 100;
  os = λ st. quiet;
  others = λ st file. file;
  stop = returns tt;
  text_of = λ e. "error";
}

abbrev pub claimed_world : World
claimed_world = record {
  run = a_run "r1" building 20;
  file = index;
  engine = not_started;
  cancels = "r1" ∷ [];
  slots = 1;
  trail = [];
  events = [];
}
