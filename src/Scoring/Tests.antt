-- ===== src/Scoring/Tests.antt =====
-- Scores at concrete inputs.
use quant_dominater.Base.{true, false, none, some, ◌+◌, ◌-◌, ◌≡◌, refl}
use quant_dominater.Base.Int.{pos}
use quant_dominater.Orchestrator.Model as Orchestrator
use quant_dominater.Orchestrator.Samples.{a_run}
use quant_dominater.Control.Model as Control
use quant_dominater.Scoring.Formula.{
  Arithmetic, round2, completion_fraction, latency_score, throughput_score, stability_score,
  resource_score, gated_latency, weighted,
}
use quant_dominater.Scoring.Services.{score, score_run_of, calculate_score, failed_marks}
use quant_dominater.Scoring.Twins.{
  sample_of, verdict_of, panel_sample, panel_verdict, mapped, request_of, panel_request, Gated,
  score_run_of-score, calculate_score-score,
}

program : Unit {0}
unfolding score score_run_of calculate_score round2 completion_fraction latency_score
    throughput_score stability_score resource_score gated_latency weighted
program = tt

-- An arithmetic on the bit patterns themselves, for the tests of the gate.
abbrev bits : Arithmetic
bits = record {
  add = λ x y. x + y;
  sub = λ x y. x - y;
  mul = λ x y. x;
  div = λ x y. x;
  min = λ x y. x;
  max = λ x y. x;
  of_int = λ n. 0;
  log10 = λ x. x;
  round = λ x. x;
}

abbrev metrics : Orchestrator.Metrics
metrics = record {
  run_id = "r1";
  bots = pos 10;
  orders_sent = pos 1500;
  acks_received = pos 1500;
  fills_received = pos 700;
  timeouts = pos 0;
  connect_errors = pos 0;
  tps = 0x4049000000000000;
  peak_tps = 0x4049000000000000;
  p50_ms = 0x3fe0000000000000;
  p90_ms = 0x3ff0000000000000;
  p99_ms = 0x3ff0000000000000;
  cpu_pct_peak = 0;
  mem_mb_peak = 0;
  events_out = "";
  outputs_out = "";
  raw_output = "";
}

abbrev verdict : Orchestrator.ValidationResult
verdict = record {
  run_id = "r1";
  valid = true;
  fills_checked = pos 700;
  reason = "";
  first_bad_seq = pos 0;
}

score_run_of-score_example :
    let run = a_run "r1" Orchestrator.scoring 10 in
    let marks = (score_run_of bits run (some metrics) (some verdict)).1 in
    (marks ≡ (score bits (request_of run (some metrics) (some verdict))).2)
    × Gated (some (sample_of metrics)) (some (verdict_of verdict)) marks
score_run_of-score_example =
    score_run_of-score bits (a_run "r1" Orchestrator.scoring 10) (some metrics) (some verdict)

-- The scorer of the run is not asked when the validator finds a wrong trade.
wrong_trade :
    score_run_of bits
      (a_run "r1" Orchestrator.scoring 10)
      (some metrics)
      (some record verdict { valid = false; reason = "price of trade 3" })
    ≡ ("r1", failed_marks "price of trade 3")
unfolding program
wrong_trade = refl

no_orders :
    (score bits (
      request_of
        (a_run "r1" Orchestrator.scoring 10)
        (some record metrics { orders_sent = pos 0 })
        (some verdict))).2
    ≡ failed_marks "no benchmark orders produced"
unfolding program
no_orders = refl

-- The limits of the latency: 100 up to a tenth of a millisecond, nothing from 50 on.
latency_limits :
    (latency_score bits 0x3fb999999999999a ≡ 0x4059000000000000)
    × (latency_score bits 0x4049000000000000 ≡ 0)
    × (latency_score bits 0 ≡ 0)
unfolding program
latency_limits = (refl, refl, refl)

-- A run of the control panel that has no metrics.
abbrev unmeasured : Control.BenchmarkRun
unmeasured = record {
  run_id = "p1";
  team_id = "local";
  status = Control.scoring;
  engine_mode = "normal";
  bot_count = pos 10;
  orders_per_sec = pos 5;
  duration_sec = pos 30;
  seed = pos 42;
  artifact_dir = "";
  started_at = 10;
  updated_at = 20;
  finished_at = none;
  valid = some true;
  score = 0;
  failure_stage = "";
  failure_reason = "";
  metrics = none;
  validation = some record {
    run_id = "p1";
    valid = true;
    fills_checked = pos 0;
    reason = "";
    first_bad_seq = pos 0;
  };
}

abbrev measured : Control.BenchmarkRun
measured = record unmeasured {
  metrics = some record {
    run_id = "p1";
    bots = pos 10;
    orders_sent = pos 1500;
    acks_received = pos 1500;
    fills_received = pos 700;
    timeouts = pos 0;
    connect_errors = pos 0;
    tps = 0x4049000000000000;
    p50_ms = 0x3fe0000000000000;
    p90_ms = 0x3ff0000000000000;
    p99_ms = 0x3ff0000000000000;
    events_out = "";
    outputs_out = "";
    raw_output = "";
  };
}

calculate_score-score_example :
    let marks = (calculate_score bits measured).1 in
    (marks ≡ (score bits (panel_request measured)).2)
    × Gated (mapped panel_sample measured.metrics) (mapped panel_verdict measured.validation) marks
calculate_score-score_example = calculate_score-score bits measured refl

unmeasured_fails : calculate_score bits unmeasured ≡ ("p1", failed_marks "metrics missing")
unfolding program
unmeasured_fails = refl
