-- ===== src/Scoring/Twins.antt =====
-- The three scorers, services/score-engine/internal/scoring/scoring.go,
-- services/orchestrator/internal/executor/score.go and services/control-panel/internal/run/score.go,
-- beside one another.
use quant_dominater.Base.{
  String, Bool, true, false, Option, none, some, ◌≡◌, ◌⊎◌, refl, ap, ◌∙◌, inl, inr, str_eq,
  Bool-cases, arith, if◌then◌else◌,
}
use quant_dominater.Base.Int.{ℤ, pos, leb_ℤ, ◌<ℤ◌}
use quant_dominater.Orchestrator.Model as Orchestrator
use quant_dominater.Control.Model as Control
use quant_dominater.Scoring.Orchestrated as Orchestrated
use quant_dominater.Scoring.Panel as Panel
use quant_dominater.Scoring.Formula.{
  Arithmetic, round2, completion_fraction, latency_score, throughput_score, stability_score,
  resource_score, gated_latency, weighted,
}
use quant_dominater.Scoring.Services.{
  Sample, Verdict, Request, RunConfig, Marks, failed_marks, reason_or_default, score_sample,
  score_checked, score, score_metrics, score_run_of, calculate_metrics, panel_marks,
  calculate_score,
}

-- The request to the score-engine that has what the orchestrator has.
abbrev pub sample_of : Orchestrator.Metrics → Sample
sample_of m = record {
  run_id = m.run_id;
  orders_sent = m.orders_sent;
  timeouts = m.timeouts;
  connect_errors = m.connect_errors;
  tps = m.tps;
  p99_ms = m.p99_ms;
  cpu_pct_peak = m.cpu_pct_peak;
  mem_mb_peak = m.mem_mb_peak;
}

abbrev pub verdict_of : Orchestrator.ValidationResult → Verdict
verdict_of v = record { run_id = v.run_id; valid = v.valid; reason = v.reason }

abbrev pub mapped : {A B : Type 0} → (A → B) → Option A → Option B
mapped f none = none
mapped f (some a) = some (f a)

abbrev pub request_of :
    Orchestrator.BenchmarkRun
    → Option Orchestrator.Metrics
    → Option Orchestrator.ValidationResult
    → Request
request_of run metrics validation = record {
  run_id = run.run_id;
  team_id = run.team_id;
  artifact_dir = run.artifact_dir;
  config = record {
    bot_count = run.config.bot_count;
    rate_per_bot = run.config.rate_per_bot;
    duration_sec = run.config.duration_sec;
  };
  metrics = mapped sample_of metrics;
  validation = mapped verdict_of validation;
}

-- The control panel samples neither processor nor memory.
abbrev pub panel_sample : Control.Metrics → Sample
panel_sample m = record {
  run_id = m.run_id;
  orders_sent = m.orders_sent;
  timeouts = m.timeouts;
  connect_errors = m.connect_errors;
  tps = m.tps;
  p99_ms = m.p99_ms;
  cpu_pct_peak = 0;
  mem_mb_peak = 0;
}

abbrev pub panel_verdict : Control.ValidationResult → Verdict
panel_verdict v = record { run_id = v.run_id; valid = v.valid; reason = v.reason }

abbrev pub panel_request : Control.BenchmarkRun → Request
panel_request r = record {
  run_id = r.run_id;
  team_id = r.team_id;
  artifact_dir = r.artifact_dir;
  config = record {
    bot_count = r.bot_count;
    rate_per_bot = r.orders_per_sec;
    duration_sec = r.duration_sec;
  };
  metrics = mapped panel_sample r.metrics;
  validation = mapped panel_verdict r.validation;
}

-- A run passes the gate when the validator vouches for it and it has sent orders; otherwise there is a
-- reason and no credit.
abbrev Passes : Option Sample → Option Verdict → Marks → Type 0
Passes metrics validation marks =
    ((v : Verdict) × (validation ≡ some v) × (v.valid ≡ true))
    × ((s : Sample) × (metrics ≡ some s) × (pos 0 <ℤ s.orders_sent))
    × (marks.valid ≡ true)
    × (marks.correctness_gate ≡ "passed")
    × (marks.failure_reason ≡ "")

abbrev Fails : Marks → Type 0
Fails marks = (str_eq marks.failure_reason "" ≡ false) × (marks ≡ failed_marks marks.failure_reason)

abbrev pub Gated : Option Sample → Option Verdict → Marks → Type 0
Gated metrics validation marks = Passes metrics validation marks ⊎ Fails marks

reason_or_default-nonempty : (reason : String) → str_eq (reason_or_default reason) "" ≡ false
reason_or_default-nonempty reason = elim (Bool-cases (str_eq reason "")) [
  | inl e ↦ rw (e, reason_or_default) refl
  | inr e ↦ rw (e, reason_or_default) e
]

module _ (ar : Arithmetic) where
  score_sample-Gated :
      (config : RunConfig) (metrics : Option Sample) (v : Verdict)
      → v.valid ≡ true
      → Gated metrics (some v) (score_sample ar config metrics)
  score_sample-Gated config none v h = inr (refl, refl)
  score_sample-Gated config (some s) v h = elim (Bool-cases (leb_ℤ s.orders_sent (pos 0))) [
    | inl e ↦ rw (e, score_sample) (inr (refl, refl))
    | inr e ↦
        rw (e, score_sample) (inl ((v, refl, h), (s, refl, sent s.orders_sent e), refl, refl, refl))
  ]
    where
      sent : (n : ℤ) → leb_ℤ n (pos 0) ≡ false → pos 0 <ℤ n
      sent n e = ground arith

  score_checked-Gated :
      (config : RunConfig) (metrics : Option Sample) (validation : Option Verdict)
      → Gated metrics validation (score_checked ar config metrics validation)
  score_checked-Gated config metrics none = inr (refl, refl)
  score_checked-Gated config metrics (some v) = from v.valid refl
    where
      from :
          (b : Bool)
          → v.valid ≡ b
          → Gated metrics (some v) (
              if b
              then score_sample ar config metrics
              else failed_marks (reason_or_default v.reason))
      from true h = score_sample-Gated config metrics v h
      from false h = inr (reason_or_default-nonempty v.reason, refl)

  metrics_agree :
      (run : Orchestrator.BenchmarkRun) (metrics : Option Orchestrator.Metrics)
      → score_metrics ar run metrics
        ≡ score_sample ar (request_of run metrics none).config (mapped sample_of metrics)
  unfolding round2 completion_fraction latency_score throughput_score stability_score resource_score
      gated_latency weighted Orchestrated.round2 Orchestrated.completion_fraction
      Orchestrated.latency_score Orchestrated.throughput_score Orchestrated.stability_score
      Orchestrated.resource_score Orchestrated.gated_latency Orchestrated.weighted
  metrics_agree run none = refl
  metrics_agree run (some m) = refl

  runs_agree :
      (run : Orchestrator.BenchmarkRun) (metrics : Option Orchestrator.Metrics)
      (validation : Option Orchestrator.ValidationResult)
      → (score_run_of ar run metrics validation).1
        ≡ score_checked ar
            (request_of run metrics none).config
            (mapped sample_of metrics)
            (mapped verdict_of validation)
  unfolding score_run_of
  runs_agree run metrics none = refl
  runs_agree run metrics (some v) = elim (Bool-cases v.valid) [
    | inl e ↦ rw (e, score_run_of) (metrics_agree run metrics)
    | inr e ↦ rw (e, score_run_of) refl
  ]

  panel_metrics_agree :
      (r : Control.BenchmarkRun) (metrics : Option Control.Metrics)
      → calculate_metrics ar r metrics
        ≡ score_sample ar (panel_request r).config (mapped panel_sample metrics)
  unfolding round2 completion_fraction latency_score throughput_score stability_score resource_score
      gated_latency weighted Panel.round2 Panel.completion_fraction Panel.latency_score
      Panel.throughput_score Panel.stability_score Panel.resource_score Panel.gated_latency
      Panel.weighted
  panel_metrics_agree r none = refl
  panel_metrics_agree r (some m) = refl

  panels_agree :
      (r : Control.BenchmarkRun) (validation : Option Control.ValidationResult)
      → panel_marks ar r validation (mapped (λ (v : Control.ValidationResult). v.valid) validation)
        ≡ score_checked ar
            (panel_request r).config
            (mapped panel_sample r.metrics)
            (mapped panel_verdict validation)
  panels_agree r none = refl
  panels_agree r (some v) = from v.valid
    where
      from :
          (b : Bool)
          → (if b
              then calculate_metrics ar r r.metrics
              else failed_marks (reason_or_default v.reason))
            ≡ (if b
                then score_sample ar (panel_request r).config (mapped panel_sample r.metrics)
                else failed_marks (reason_or_default v.reason))
      from true = panel_metrics_agree r r.metrics
      from false = refl

-- Whatever the arithmetic of floating point does: the orchestrator and the score-engine give the same
-- marks to what the orchestrator has of a run. They pass the gate only for a run that the validator
-- vouches for and that has sent orders; otherwise they name a reason, and every score is zero.
pub score_run_of-score :
    (ar : Arithmetic) (run : Orchestrator.BenchmarkRun) (metrics : Option Orchestrator.Metrics)
    (validation : Option Orchestrator.ValidationResult)
    → let marks = (score_run_of ar run metrics validation).1 in
      (marks ≡ (score ar (request_of run metrics validation)).2)
      × Gated (mapped sample_of metrics) (mapped verdict_of validation) marks
unfolding score
score_run_of-score ar run metrics validation = rw (runs_agree ar run metrics validation) (
  refl,
  score_checked-Gated ar ((request_of run metrics none).config) (mapped sample_of metrics)
      (mapped verdict_of validation),
)

-- Whatever the arithmetic of floating point does: where the verdict of a run is that of its
-- validation, as `execute` of the control panel sets it, the control panel and the score-engine give
-- the run the same marks, and they pass the gate only for a run that the validator vouches for and
-- that has sent orders; otherwise they name a reason, and every score is zero.
pub calculate_score-score :
    (ar : Arithmetic) (r : Control.BenchmarkRun)
    → r.valid ≡ mapped (λ (v : Control.ValidationResult). v.valid) r.validation
    → let marks = (calculate_score ar r).1 in
      (marks ≡ (score ar (panel_request r)).2)
      × Gated (mapped panel_sample r.metrics) (mapped panel_verdict r.validation) marks
unfolding score calculate_score
calculate_score-score ar r h =
    rw (ap (panel_marks ar r r.validation) h ∙ panels_agree ar r r.validation) (
      refl,
      score_checked-Gated ar ((panel_request r).config) (mapped panel_sample r.metrics)
          (mapped panel_verdict r.validation),
    )
