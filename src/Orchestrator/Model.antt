-- ===== src/Orchestrator/Model.antt =====
-- services/orchestrator/internal/model/model.go: the records of the run index.
use quant_dominater.Base.{ℕ, ◌/◌, String, Bool, true, false, Option, ◌==◌}
use quant_dominater.Base.Int.{ℤ, sub_ℕ}
use quant_dominater.Base.Float.{Float64}

-- `time.Time`: nanoseconds since the zero Time.
abbrev pub Time : Type 0
Time = ℕ

-- `t.Unix()`, for times from 1970 on; the zero Time is 62135596800 seconds before.
abbrev pub unix : Time → ℤ
unix t = sub_ℕ (t / 1_000_000_000) 62_135_596_800

pub record SubmissionArtifact : Type 0 where
  pub artifact_id : String
  pub uri : String
  pub sha256 : String
  pub size_bytes : ℤ
  pub filename : String
  pub content_type : String

pub record Submission : Type 0 where
  pub submission_id : String
  pub team_id : String
  pub language : String
  pub protocol : String
  pub artifact : SubmissionArtifact
  pub created_at_unix : ℤ
  pub created_at : Time

-- The texts of `RunStatus`: every service that writes the index writes one of these.
pub data RunStatus : Type 0 where
  queued building sandbox_starting health_checking benchmarking validating scoring finished failed
        cancelled timed_out :
      RunStatus

abbrev pub status_code : RunStatus → ℕ
status_code queued = 0
status_code building = 1
status_code sandbox_starting = 2
status_code health_checking = 3
status_code benchmarking = 4
status_code validating = 5
status_code scoring = 6
status_code finished = 7
status_code failed = 8
status_code cancelled = 9
status_code timed_out = 10

-- `==` on statuses
abbrev pub status_eq : RunStatus → RunStatus → Bool
status_eq s t = status_code s == status_code t

pub record SandboxSpec : Type 0 where
  pub cpu_limit : String
  pub memory_limit : String
  pub network_egress : Bool

pub record BenchmarkRunConfig : Type 0 where
  pub bot_count : ℤ
  pub rate_per_bot : ℤ
  pub duration_sec : ℤ
  pub warmup_sec : ℤ
  pub engine_endpoint : String

pub record BenchmarkRun : Type 0 where
  pub run_id : String
  pub submission_id : String
  pub team_id : String
  pub status : RunStatus
  pub benchmark_seed : ℤ
  pub sandbox : SandboxSpec
  pub config : BenchmarkRunConfig
  pub artifact_dir : String
  pub valid : Option Bool
  pub score : Float64
  pub failure_stage : String
  pub failure_reason : String
  pub created_at_unix : ℤ
  pub updated_at_unix : ℤ
  pub finished_at_unix : ℤ
  pub created_at : Time
  pub updated_at : Time
  pub finished_at : Option Time

pub record Metrics : Type 0 where
  pub run_id : String
  pub bots : ℤ
  pub orders_sent : ℤ
  pub acks_received : ℤ
  pub fills_received : ℤ
  pub timeouts : ℤ
  pub connect_errors : ℤ
  pub tps : Float64
  pub peak_tps : Float64
  pub p50_ms : Float64
  pub p90_ms : Float64
  pub p99_ms : Float64
  pub cpu_pct_peak : Float64
  pub mem_mb_peak : Float64
  pub events_out : String
  pub outputs_out : String
  pub raw_output : String

-- The free-form `Expected`, `Actual` and `Raw` maps are carried along unread and left out.
pub record ValidationResult : Type 0 where
  pub run_id : String
  pub valid : Bool
  pub fills_checked : ℤ
  pub reason : String
  pub first_bad_seq : ℤ

pub record ScoreResult : Type 0 where
  pub run_id : String
  pub score : Float64
  pub valid : Bool
  pub latency_score : Float64
  pub throughput_score : Float64
  pub stability_score : Float64
  pub resource_score : Float64
  pub correctness_gate : String
  pub failure_reason : String

pub record DirectBenchmarkRequest : Type 0 where
  pub endpoint_url : String
  pub benchmark_seed : ℤ
  pub config : BenchmarkRunConfig
  pub timeout_sec : ℤ

pub record DirectBenchmarkResult : Type 0 where
  pub run : BenchmarkRun
  pub metrics : Option Metrics
  pub validation : Option ValidationResult
  pub score : Option ScoreResult

-- `Terminal`
abbrev pub is_terminal : RunStatus → Bool
is_terminal finished = true
is_terminal failed = true
is_terminal cancelled = true
is_terminal timed_out = true
is_terminal _ = false

-- `store.Touch`, at the time that `time.Now` gives
abbrev pub touch : Time → RunStatus → BenchmarkRun → BenchmarkRun
touch now status run = record run { status = status; updated_at = now; updated_at_unix = unix now }
