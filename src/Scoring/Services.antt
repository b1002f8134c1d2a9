-- ===== src/Scoring/Services.antt =====
-- How the three services use the formula: `Score` of services/score-engine/internal/scoring, `Score`
-- of services/orchestrator/internal/executor/score.go and `CalculateScore` of
-- services/control-panel/internal/run/score.go.
use quant_dominater.Base.{
  String, Bool, true, false, Option, none, some, List, [], ◌∷◌, str_eq, if◌then◌else◌,
}
use quant_dominater.Base.Int.{ℤ, pos, leb_ℤ, mul_ℤ, int64}
use quant_dominater.Base.Float.{Float64}
use quant_dominater.Orchestrator.Model as Orchestrator
use quant_dominater.Control.Model as Control
use quant_dominater.Scoring.Orchestrated as Orchestrated
use quant_dominater.Scoring.Panel as Panel
use quant_dominater.Scoring.Formula.{
  Arithmetic, gated_latency, throughput_score, stability_score, resource_score, weighted,
}

pub record RunConfig : Type 0 where
  pub bot_count : ℤ
  pub rate_per_bot : ℤ
  pub duration_sec : ℤ

pub record Sample : Type 0 where
  pub run_id : String
  pub orders_sent : ℤ
  pub timeouts : ℤ
  pub connect_errors : ℤ
  pub tps : Float64
  pub p99_ms : Float64
  pub cpu_pct_peak : Float64
  pub mem_mb_peak : Float64

pub record Verdict : Type 0 where
  pub run_id : String
  pub valid : Bool
  pub reason : String

pub record Request : Type 0 where
  pub run_id : String
  pub team_id : String
  pub artifact_dir : String
  pub config : RunConfig
  pub metrics : Option Sample
  pub validation : Option Verdict

-- A result without the ids of the run and the team.
pub record Marks : Type 0 where
  pub score : Float64
  pub valid : Bool
  pub latency_score : Float64
  pub throughput_score : Float64
  pub stability_score : Float64
  pub resource_score : Float64
  pub correctness_gate : String
  pub failure_reason : String

abbrev pub failed_marks : String → Marks
failed_marks reason = record {
  score = 0;
  valid = false;
  latency_score = 0;
  throughput_score = 0;
  stability_score = 0;
  resource_score = 0;
  correctness_gate = "failed";
  failure_reason = reason;
}

-- `if result.FailureReason == ""`
abbrev pub reason_or_default : String → String
reason_or_default reason = if str_eq reason "" then "validation failed" else reason

abbrev pub marks_of : Float64 → Float64 → Float64 → Float64 → Float64 → Marks
marks_of score latency throughput stability resource = record {
  score = score;
  valid = true;
  latency_score = latency;
  throughput_score = throughput;
  stability_score = stability;
  resource_score = resource;
  correctness_gate = "passed";
  failure_reason = "";
}

abbrev pub first_given : List String → String
first_given [] = ""
first_given (s ∷ ss) = let rest = first_given ss in if str_eq s "" then rest else s

abbrev pub verdict_id : Option Verdict → String
verdict_id none = ""
verdict_id (some v) = v.run_id

abbrev pub sample_id : Option Sample → String
sample_id none = ""
sample_id (some s) = s.run_id

module _ (ar : Arithmetic) where
  -- `Score` of the score-engine from the metrics on
  abbrev pub score_sample : RunConfig → Option Sample → Marks
  score_sample config none = failed_marks "metrics missing"
  score_sample config (some s) =
      if leb_ℤ s.orders_sent (pos 0)
      then failed_marks "no benchmark orders produced"
      else (let latency = gated_latency ar s.p99_ms s.orders_sent s.timeouts s.connect_errors in
          let throughput =
            throughput_score ar s.tps (int64 (mul_ℤ config.bot_count config.rate_per_bot)) in
          let stability = stability_score ar s.orders_sent s.timeouts s.connect_errors in
          let resource = resource_score ar s.cpu_pct_peak s.mem_mb_peak in
          marks_of (weighted ar latency throughput stability resource) latency throughput stability
            resource)

  abbrev pub score_checked : RunConfig → Option Sample → Option Verdict → Marks
  score_checked config metrics none = failed_marks "validation failed"
  score_checked config metrics (some v) =
      if v.valid then score_sample config metrics else failed_marks (reason_or_default v.reason)

  -- `Score` of the score-engine: the ids of the run and of the team, and the marks
  unfoldable pub score : Request → String × String × Marks
  score req = (
    first_given (req.run_id ∷ verdict_id req.validation ∷ sample_id req.metrics ∷ []),
    req.team_id,
    score_checked req.config req.metrics req.validation,
  )

  -- `Score` of the orchestrator behind its validation
  abbrev pub score_metrics : Orchestrator.BenchmarkRun → Option Orchestrator.Metrics → Marks
  score_metrics run none = failed_marks "metrics missing"
  score_metrics run (some m) =
      if leb_ℤ m.orders_sent (pos 0)
      then failed_marks "no benchmark orders produced"
      else (let latency =
            Orchestrated.gated_latency ar m.p99_ms m.orders_sent m.timeouts m.connect_errors in
          let throughput =
            Orchestrated.throughput_score ar m.tps
              (int64 (mul_ℤ run.config.bot_count run.config.rate_per_bot)) in
          let stability =
            Orchestrated.stability_score ar m.orders_sent m.timeouts m.connect_errors in
          let resource = Orchestrated.resource_score ar m.cpu_pct_peak m.mem_mb_peak in
          marks_of (Orchestrated.weighted ar latency throughput stability resource) latency
            throughput stability resource)

  -- `Score` of the orchestrator, up to `writeScore`
  unfoldable pub score_run_of :
      Orchestrator.BenchmarkRun
      → Option Orchestrator.Metrics
      → Option Orchestrator.ValidationResult
      → String × Marks
  score_run_of run metrics none = (run.run_id, failed_marks "validation failed")
  score_run_of run metrics (some v) =
      if v.valid
      then (run.run_id, score_metrics run metrics)
      else (v.run_id, failed_marks (reason_or_default v.reason))

  -- `CalculateScore` behind its validation
  abbrev pub calculate_metrics : Control.BenchmarkRun → Option Control.Metrics → Marks
  calculate_metrics r none = failed_marks "metrics missing"
  calculate_metrics r (some m) =
      if leb_ℤ m.orders_sent (pos 0)
      then failed_marks "no benchmark orders produced"
      else (let latency =
            Panel.gated_latency ar m.p99_ms m.orders_sent m.timeouts m.connect_errors in
          let throughput =
            Panel.throughput_score ar m.tps (int64 (mul_ℤ r.bot_count r.orders_per_sec)) in
          let stability = Panel.stability_score ar m.orders_sent m.timeouts m.connect_errors in
          let resource = Panel.resource_score ar 0 0 in
          marks_of (Panel.weighted ar latency throughput stability resource) latency throughput
            stability resource)

  abbrev pub reason_of : Option Control.ValidationResult → String
  reason_of none = ""
  reason_of (some v) = v.reason

  abbrev pub panel_marks :
      Control.BenchmarkRun → Option Control.ValidationResult → Option Bool → Marks
  panel_marks r validation none = failed_marks (reason_or_default (reason_of validation))
  panel_marks r validation (some valid) =
      if valid
      then calculate_metrics r r.metrics
      else failed_marks (reason_or_default (reason_of validation))

  -- `CalculateScore`: the id of the run, and the marks
  unfoldable pub calculate_score : Control.BenchmarkRun → String × Marks
  calculate_score r = (r.run_id, panel_marks r r.validation r.valid)
