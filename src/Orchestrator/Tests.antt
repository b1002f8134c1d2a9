-- ===== src/Orchestrator/Tests.antt =====
-- Runs of the orchestrator's operations on the sample index, and each theorem at such an input.
use quant_dominater.Base.{◌+◌, ◌≤◌, some, List, [], ◌∷◌, ◌≡◌, refl, count_if}
use mathlib.Core.Option
use quant_dominater.Orchestrator.Model.{
  BenchmarkRun, building, sandbox_starting, health_checking, benchmarking, validating, scoring,
  finished, cancelled, failed,
}
use quant_dominater.Orchestrator.Store.{
  scores_finite, write_locked, find_submission, get_submission, find_run, get_run, save_in,
  locked_snapshot, save_run, claim_in, claim_run, claim_first, claim_next_queued_run,
}
use quant_dominater.Orchestrator.Store.Calls.{runs_of}
use quant_dominater.Orchestrator.Store.Saves.{Saves, save_run-Saves}
use quant_dominater.Orchestrator.Store.Claims.{
  Grants, Names, granted, claim_run-Grants, claim_next_queued_run-Grants,
}
use quant_dominater.Orchestrator.Store.History.{
  Call, save, claim, claim_next, perform, perform_all, is_queued, has_status, grants_of,
  claims_once, first_terminal_wins,
}
use quant_dominater.Orchestrator.Execute.World.{Env, panics}
use quant_dominater.Orchestrator.Execute.Run.{body, fail, merge_resource_sample, execute}
use quant_dominater.Orchestrator.Samples.{
  a_run, index, quiet, disk_full, sort_by_created, sort_by_created-KeepsRecords, all_well,
  claimed_world,
}

program : Unit {0}
unfolding scores_finite write_locked find_submission get_submission find_run get_run save_in
    locked_snapshot save_run claim_in claim_run claim_first claim_next_queued_run sort_by_created
    perform perform_all body execute fail merge_resource_sample
program = tt

save_run-Saves_example :
    Saves (a_run "r1" finished 20) index (save_run quiet (a_run "r1" finished 20) index)
save_run-Saves_example = save_run-Saves quiet (a_run "r1" finished 20) index

claim_run-Grants_example :
    let (file', reply) = claim_run quiet 50 "r2" index in
    Grants 50 index file' (granted reply) × Names "r2" (granted reply)
claim_run-Grants_example = claim_run-Grants quiet 50 "r2" index

claim_next_queued_run-Grants_example :
    let (file', reply) = claim_next_queued_run sort_by_created quiet 50 index in
    Grants 50 index file' (granted reply)
claim_next_queued_run-Grants_example =
    claim_next_queued_run-Grants sort_by_created sort_by_created-KeepsRecords quiet 50 index

-- Two workers, a cancel and a disk that is full.
abbrev calls : List Call
calls =
    claim quiet 30 "r1"
    ∷ claim_next disk_full 40
    ∷ claim_next quiet 50
    ∷ save quiet (a_run "r1" cancelled 20)
    ∷ claim quiet 60 "r1"
    ∷ []

claims_once_example :
    let (file', grants) = perform_all sort_by_created calls index in
    grants_of "r1" grants + count_if (is_queued "r1") (runs_of file')
    ≤ count_if (is_queued "r1") (runs_of index)
claims_once_example =
    claims_once sort_by_created sort_by_created-KeepsRecords "r1" calls index
      (tt, (tt, (tt, (refl, (tt, tt)))))

-- A cancelled run whose execution comes to its end after the cancel.
abbrev late_calls : List Call
late_calls = save quiet (a_run "r3" finished 5) ∷ claim_next quiet 70 ∷ []

first_terminal_wins_example :
    count_if (has_status "r3" cancelled) (runs_of index)
    ≤ count_if
        (has_status "r3" cancelled)
        (runs_of (perform_all sort_by_created late_calls index).0)
first_terminal_wins_example =
    first_terminal_wins sort_by_created sort_by_created-KeepsRecords "r3" cancelled refl late_calls
      index (refl, (tt, tt))

-- The oldest queued run is handed out, although it is not the first in the file.
oldest_is_claimed :
    Option.map
      (λ (r : BenchmarkRun). r.run_id)
      (claim_next_queued_run sort_by_created quiet 50 index).1.0
    ≡ some "r2"
unfolding program
oldest_is_claimed = refl

-- Only the first of the two processes that end "r3" is stored.
late_finish_refused :
    get_run "r3" (perform_all sort_by_created late_calls index).0 ≡ get_run "r3" index
unfolding program
late_finish_refused = refl

execute_statuses :
    (execute all_well claimed_world).trail
    ≡ finished ∷ scoring ∷ validating ∷ benchmarking ∷ health_checking ∷ sandbox_starting ∷ building
      ∷ []
unfolding program
execute_statuses = refl

-- A panic of the bot fleet fails the run and frees the slot.
abbrev fleet_panics : Env
fleet_panics = record all_well { botfleet = λ run endpoint. panics }

execute_panic :
    let w = execute fleet_panics claimed_world in (w.run.status ≡ failed) × (w.slots ≡ 0)
unfolding program
execute_panic = (refl, refl)
