-- ===== src/Orchestrator/Store/Calls.antt =====
-- The lock, the load and the write of json_store.go, each with a rule for what follows it.
use quant_dominater.Base.{List, [], Option, none, some, ◌≡◌, refl}
use quant_dominater.Orchestrator.Model.{BenchmarkRun, Submission}
use quant_dominater.Orchestrator.Store.{
  Os, Error, ok, err, Snapshot, File, holds, acquire_file_lock, load_locked, locked_snapshot,
  write_locked, ◌or_else◌, marshal,
}

-- What holds after every refusal and after the load holds after the two together.
module _ {A : Type 0} (P : A → Type 0) (os : Os) (file : File) {fail : Error → A}
    {next : Snapshot → A} (on_fail : (e : Error) → P (fail e))
    (on_next : (snap : Snapshot) → load_locked file ≡ ok snap → P (next snap)) where
  pub locked_snapshot_lem : P (locked_snapshot os file fail next)
  unfolding locked_snapshot
  locked_snapshot_lem =
      elim (acquire_file_lock os)
        as (λ l. P (elim l [
          | some e ↦ fail e
          | none ↦ elim (load_locked file) [ err e ↦ fail e | ok snap ↦ next snap ]
        ])) [
          | some e ↦ on_fail e
          | none ↦
              (elim (load_locked file)
                  as (λ r.
                    load_locked file ≡ r → P (elim r [ err e ↦ fail e | ok snap ↦ next snap ])) [
                      | err e ↦ λ _. on_fail e
                      | ok snap ↦ on_next snap
                    ])
                refl
        ]

-- A write fails and leaves the file, or replaces it by the snapshot.
module _ (P : File × Option Error → Type 0) (os : Os) (snap : Snapshot) (file : File)
    (on_fail : (e : Error) → P (file, some e)) (on_written : P (holds snap, none)) where
  pub write_locked_lem : P (write_locked os snap file)
  unfolding write_locked
  write_locked_lem =
      elim (((os.mkdir or_else marshal snap) or_else os.write_file) or_else os.rename)
        as (λ r. P (elim r [ none ↦ (holds snap, none) | some e ↦ (file, some e) ])) [
          | some e ↦ on_fail e
          | none ↦ on_written
        ]

-- The records of the index file, none where it cannot be loaded.
abbrev pub runs_of : File → List BenchmarkRun
runs_of file = elim (load_locked file) [ ok snap ↦ snap.runs | err e ↦ [] ]

pub runs_of-loaded :
    (file : File) (snap : Snapshot) → load_locked file ≡ ok snap → runs_of file ≡ snap.runs
runs_of-loaded file snap h = rw (h, runs_of)

abbrev pub submissions_of : File → List Submission
submissions_of file = elim (load_locked file) [ ok snap ↦ snap.submissions | err e ↦ [] ]

pub submissions_of-loaded :
    (file : File) (snap : Snapshot)
    → load_locked file ≡ ok snap
    → submissions_of file ≡ snap.submissions
submissions_of-loaded file snap h = rw (h, submissions_of)
