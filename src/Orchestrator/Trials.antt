-- ===== src/Orchestrator/Trials.antt =====
-- Runs of the manager and of the checks of its requests at concrete inputs.
use quant_dominater.Base.{
  ◌+◌, ◌*◌, ◌^◌, ◌⊎◌, if◌then◌else◌, String, true, false, none, some, List, [], ◌∷◌, ◌≡◌, refl,
  str_eq, arith,
}
use quant_dominater.Base.Int.{pos, negsuc, ◌≤ℤ◌, ◌<ℤ◌}
use quant_dominater.Orchestrator.Model.{
  BenchmarkRun, BenchmarkRunConfig, cancelled, validating, queued, building, touch, is_terminal,
}
use quant_dominater.Orchestrator.Store.{
  Result, ok, scores_finite, write_locked, find_run, get_run, save_in, locked_snapshot, save_run,
  claim_in, claim_run, claim_first, claim_next_queued_run,
}
use quant_dominater.Orchestrator.Manager.{
  Manager, slot, start_run, start_next_queued, finish_run, cancel_run, shutdown,
}
use quant_dominater.Orchestrator.Slots.{Tidy}
use quant_dominater.Orchestrator.Sequences.{
  Steps, here, next, starts, ends, new_manager, new_manager-Tidy, Steps-Tidy, Steps-drained,
}
use quant_dominater.Orchestrator.Cancel.{cancel_run_ends, save_run_reopens}
use quant_dominater.Orchestrator.Limits.{
  WithinLimits, normalize_config, normalize_config-WithinLimits, direct_timeout,
  direct_timeout_bounds,
}
use quant_dominater.Orchestrator.Endpoint.{
  Ip, v4, v6, Url, disallowed, is_blocked_ip, validate_endpoint, Reachable,
  validate_endpoint-Reachable,
}
use quant_dominater.Orchestrator.Samples.{a_run, index, quiet, all_well}

program : Unit {0}
unfolding scores_finite write_locked find_run get_run save_in locked_snapshot save_run claim_in
    claim_run claim_first claim_next_queued_run start_run start_next_queued cancel_run shutdown
    finish_run is_blocked_ip validate_endpoint normalize_config
program = tt

abbrev idle : Manager
idle = new_manager 1 index

abbrev started : Manager
started = (start_run slot quiet 50 "r2" idle).1

abbrev ended : Manager
ended = finish_run all_well 0 started

one_run : Steps idle ended
one_run =
    next idle started ended (starts slot quiet 50 "r2" idle (omega arith))
      (next started ended ended (ends all_well 0 started) (here ended))

Steps-Tidy_example : Tidy ended
Steps-Tidy_example = Steps-Tidy idle ended one_run (new_manager-Tidy 1 index)

drained_in_the_end : (ended.slots ≡ 0) × (ended.cancels ≡ [])
unfolding program
drained_in_the_end = Steps-drained 1 index ended one_run refl

-- The second start waits: the one slot is in use.
slot_taken : (started.slots ≡ 1) × (started.cancels ≡ "r2" ∷ [])
unfolding program
slot_taken = (refl, refl)

-- The executing run is cancelled.
cancel_run_ends_example :
    let m = (cancel_run (λ f. f) quiet 60 "r2" started).1 in
    ((r : BenchmarkRun) × (get_run "r2" m.file ≡ ok r) × (is_terminal r.status ≡ true))
    × (m.called ≡ "r2" ∷ [])
    × (m.slots ≡ started.slots)
    × (m.cancels ≡ started.cancels)
unfolding program
cancel_run_ends_example =
    cancel_run_ends (λ f. f) quiet 60 "r2" started (touch 50 building (a_run "r2" queued 10)) refl
      refl refl

abbrev greedy : BenchmarkRunConfig
greedy = record {
  bot_count = pos 100000;
  rate_per_bot = negsuc 4;
  duration_sec = pos 30;
  warmup_sec = negsuc 0;
  engine_endpoint = "";
}

greedy_is_limited :
    WithinLimits (normalize_config greedy)
    × (WithinLimits greedy → normalize_config greedy ≡ greedy)
greedy_is_limited = normalize_config-WithinLimits greedy

direct_timeout_bounds_example :
    (pos 0 <ℤ pos 1000
      → (pos 1000000000 ≤ℤ direct_timeout (pos 1000) (pos 7))
        × (direct_timeout (pos 1000) (pos 7) ≤ℤ pos 300000000000)
        × (pos 1000 ≤ℤ pos 300 → direct_timeout (pos 1000) (pos 7) ≡ pos (1000 * 1000000000)))
    × (pos 1000 ≤ℤ pos 0 → direct_timeout (pos 1000) (pos 7) ≡ pos 7)
direct_timeout_bounds_example = direct_timeout_bounds (pos 1000) (pos 7)

-- 93.184.216.34
abbrev resolve : String → Result (List Ip)
resolve host = if str_eq host "metadata" then ok (v4 2852039166 ∷ []) else ok (v4 1572395042 ∷ [])

abbrev an_engine : Url
an_engine = record { scheme = "wss"; hostname = "example.org" }

validate_endpoint-Reachable_example :
    (u : Url) × (ok an_engine ≡ ok u)
    × ((str_eq u.scheme "ws" ≡ true) ⊎ (str_eq u.scheme "wss" ≡ true))
    × (str_eq u.hostname "" ≡ false)
    × Reachable str_eq resolve none u.hostname
unfolding program
validate_endpoint-Reachable_example =
    validate_endpoint-Reachable str_eq resolve none (ok an_engine) refl

-- 169.254.169.254, also as ::ffff:169.254.169.254
metadata_refused :
    validate_endpoint str_eq resolve none (ok (record { scheme = "ws"; hostname = "metadata" }))
    ≡ some disallowed
unfolding program
metadata_refused = refl

mapped_refused : is_blocked_ip (v6 (65535 * 2 ^ 32 + 2852039166)) ≡ true
unfolding program
mapped_refused = refl

-- "r3" has been cancelled; the transition of its goroutine is stored after that.
save_run_reopens_example :
    get_run "r3" (save_run quiet (a_run "r3" validating 5) index).0 ≡ ok (a_run "r3" validating 5)
unfolding program
save_run_reopens_example =
    save_run_reopens quiet index (a_run "r3" cancelled 5) (a_run "r3" validating 5) refl refl refl
      refl
