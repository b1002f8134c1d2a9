-- ===== src/Control/Model.antt =====
-- services/control-panel/internal/run/model.go: the records of the control panel, and `IsTerminal` of
-- state.go.
use quant_dominater.Base.{ℕ, String, Bool, true, false, Option, ◌==◌}
use quant_dominater.Base.Int.{ℤ}
use quant_dominater.Base.Float.{Float64}

-- `time.Time`: nanoseconds since the zero Time.
abbrev pub Time : Type 0
Time = ℕ

-- The texts of `Status`.
pub data Status : Type 0 where
  queued starting health_check benchmarking validating scoring finished failed cancelled : Status

abbrev pub code : Status → ℕ
code queued = 0
code starting = 1
code health_check = 2
code benchmarking = 3
code validating = 4
code scoring = 5
code finished = 6
code failed = 7
code cancelled = 8

-- `==` on statuses
abbrev pub same_status : Status → Status → Bool
same_status s t = code s == code t

-- `IsTerminal`
abbrev pub is_terminal : Status → Bool
is_terminal finished = true
is_terminal failed = true
is_terminal cancelled = true
is_terminal _ = false

pub record RunRequest : Type 0 where
  pub team_id : String
  pub engine_mode : String
  pub bot_count : ℤ
  pub orders_per_sec : ℤ
  pub duration_sec : ℤ
  pub seed : ℤ

pub record Metrics : Type 0 where
  pub run_id : String
  pub bots : ℤ
  pub orders_sent : ℤ
  pub acks_received : ℤ
  pub fills_received : ℤ
  pub timeouts : ℤ
  pub connect_errors : ℤ
  pub tps : Float64
  pub p50_ms : Float64
  pub p90_ms : Float64
  pub p99_ms : Float64
  pub events_out : String
  pub outputs_out : String
  pub raw_output : String

-- The free-form `Expected`, `Actual` and `Raw` maps are carried along unread and left out.
pub record ValidationResult : Type 0 where
  pub run_id : String
  pub valid : Bool
  pub fills_checked : ℤ
  pub reason : String
  pub first_bad_seq : ℤ

pub record ScoreResult : Type 0 where
  pub run_id : String
  pub score : Float64
  pub valid : Bool
  pub latency_score : Float64
  pub throughput_score : Float64
  pub stability_score : Float64
  pub resource_score : Float64
  pub correctness_gate : String
  pub failure_reason : String

pub record BenchmarkRun : Type 0 where
  pub run_id : String
  pub team_id : String
  pub status : Status
  pub engine_mode : String
  pub bot_count : ℤ
  pub orders_per_sec : ℤ
  pub duration_sec : ℤ
  pub seed : ℤ
  pub artifact_dir : String
  pub started_at : Time
  pub updated_at : Time
  pub finished_at : Option Time
  pub valid : Option Bool
  pub score : Float64
  pub failure_stage : String
  pub failure_reason : String
  pub metrics : Option Metrics
  pub validation : Option ValidationResult
