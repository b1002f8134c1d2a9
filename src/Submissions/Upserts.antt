-- ===== src/Submissions/Upserts.antt =====
-- What `SaveRun` of services/submission-api/internal/store/json_store.go does to the index.
use quant_dominater.Base.{
  String, true, false, Option, none, some, ◌≡◌, refl, sym, ap, ◌∙◌, inl, inr, str_eq, Bool-cases,
  Option-cases,
}
use quant_dominater.Base.Keys.{find-upsert_self, find-upsert_ne}
use quant_dominater.Orchestrator.Model.{BenchmarkRun}
use quant_dominater.Orchestrator.Store.{
  Os, Error, ok, Snapshot, File, holds, load_locked, marshal, scores_finite, write_locked, find_run,
  found, get_run, get_submission, find_submission,
}
use quant_dominater.Orchestrator.Store.Calls.{locked_snapshot_lem, write_locked_lem, runs_of}
use quant_dominater.Orchestrator.Store.Saves.{find_run-cons_ne, find_run-cons_self, get_run-holds}
use quant_dominater.Submissions.Store.{upsert_run, put_run}

abbrev run_key : BenchmarkRun → String
run_key run = run.run_id

-- What is written has been encoded, so that its scores are finite.
module _ (P : File × Option Error → Type 0) (os : Os) (snap : Snapshot) (file : File)
    (on_fail : (e : Error) → P (file, some e))
    (on_written : scores_finite snap.runs ≡ true → P (holds snap, none)) where
  not_encoded : scores_finite snap.runs ≡ false → P (write_locked os snap file)
  unfolding write_locked
  not_encoded h = elim (Option-cases os.mkdir) [
    | inl e ↦ rw (e, write_locked) (rw (h, marshal) (on_fail _))
    | inr (x, e) ↦ rw (e, write_locked) (on_fail x)
  ]

  pub write_locked_encoded : P (write_locked os snap file)
  write_locked_encoded = elim (Bool-cases (scores_finite snap.runs)) [
    | inl e ↦ write_locked_lem P os snap file on_fail (on_written e)
    | inr e ↦ not_encoded e
  ]

-- What the caller of `SaveRun` can rely on, by how it ended.
abbrev pub Puts : BenchmarkRun → File → File × Option Error → Type 0
Puts run file (file', some e) = file' ≡ file
Puts run file (file', none) =
    (get_run run.run_id file' ≡ ok run)
    × ((id : String) → str_eq run.run_id id ≡ false → get_run id file' ≡ get_run id file)
    × ((id : String) → get_submission id file' ≡ get_submission id file)
    × (scores_finite (runs_of file') ≡ true)

pub get_submission-loaded :
    (id : String) (file : File) (snap : Snapshot)
    → load_locked file ≡ ok snap
    → get_submission id file ≡ found (find_submission id snap.submissions)
unfolding get_submission
get_submission-loaded id file snap h = rw (h, get_submission)

-- On every path: an error leaves the file as it was; without one the run reads as the given one,
-- whatever was stored under its id, and every other run and every submission read as before.
pub put_run-Puts :
    (os : Os) (run : BenchmarkRun) (file : File) → Puts run file (put_run os run file)
unfolding put_run
put_run-Puts os run file =
    locked_snapshot_lem (Puts run file) os file (λ e. refl)
      λ snap loaded.
        let after : Snapshot = record snap { runs = upsert_run run snap.runs } in
        write_locked_encoded (Puts run file) os after file (λ e. refl)
          λ finite. (
            get_run-holds run.run_id (holds after) after refl
                ∙ ap found (
                    find-upsert_self run_key find_run find_run-cons_self find_run-cons_ne run
                      snap.runs),
            λ id other.
                get_run-holds id (holds after) after refl
                ∙ ap found (
                    find-upsert_ne run_key find_run find_run-cons_self find_run-cons_ne id run
                      snap.runs other)
                ∙ sym (get_run-holds id file snap loaded),
            λ id.
                get_submission-loaded id (holds after) after refl
                ∙ sym (get_submission-loaded id file snap loaded),
            finite,
          )
