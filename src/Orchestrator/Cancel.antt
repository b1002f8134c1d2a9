-- ===== src/Orchestrator/Cancel.antt =====
-- services/orchestrator/internal/orchestrator/manager.go: what `CancelRun` leaves in the index.
use quant_dominater.Base.{
  String, Bool, true, false, Option, none, some, ◌∷◌, ◌≡◌, inl, inr, refl, ap, ◌∙◌, Bool-cases,
  ◌&&◌, if◌then◌else◌,
}
use quant_dominater.Orchestrator.Model.{Time, BenchmarkRun, is_terminal}
use quant_dominater.Orchestrator.Store.{Os, Error, ok, File, get_run, save_run, conflicts}
use quant_dominater.Orchestrator.Store.Saves.{Saves, save_run-Saves}
use quant_dominater.Base.Keys.{has_cancel}
use quant_dominater.Orchestrator.Manager.{Manager, cancelled_at, cancel_read, cancel_run}

-- The guard refuses a save only where the stored run is terminal already.
kept_terminal :
    (stored run : BenchmarkRun)
    → is_terminal run.status ≡ true
    → is_terminal (if conflicts stored run then stored else run).status ≡ true
kept_terminal stored run t = elim (Bool-cases (conflicts stored run)) [
  | inl c ↦ rw c (left_of (is_terminal stored.status) (is_terminal run.status) _ c)
  | inr c ↦ rw c t
]
  where
    left_of : (a b d : Bool) → ((a && b) && d) ≡ true → a ≡ true
    left_of true b d h = refl
    left_of false b d h = absurd cc

abbrev Ended : String → File → Type 0
Ended id file = (r : BenchmarkRun) × (get_run id file ≡ ok r) × (is_terminal r.status ≡ true)

saved_Ended :
    (run : BenchmarkRun) (file : File) (r : File × Option Error)
    → Saves run file r
    → is_terminal run.status ≡ true
    → r.1 ≡ none
    → Ended run.run_id r.0
saved_Ended run file (file', some e) s t h = absurd cc
saved_Ended run file (file', none) (stored, a, b, c) t h = (_, b, kept_terminal stored run t)

-- `CancelRun` of a run that it read as not terminal calls the run's cancel function where this process
-- executes it; and if its save succeeds, the run is terminal in the index, as cancelled or as whatever
-- ended it between the read and the save, and no slot and no registration is touched.
pub cancel_run_ends :
    (others : File → File) (os : Os) (now : Time) (id : String) (m : Manager) (run : BenchmarkRun)
    → get_run id m.file ≡ ok run
    → is_terminal run.status ≡ false
    → (save_run os (cancelled_at now run) (others m.file)).1 ≡ none
    → let m' = (cancel_run others os now id m).1 in
      Ended run.run_id m'.file
      × (m'.called ≡ (if has_cancel id m.cancels then id ∷ m.called else m.called))
      × (m'.slots ≡ m.slots)
      × (m'.cancels ≡ m.cancels)
unfolding cancel_run
cancel_run_ends others os now id m run e t s =
    rw (e, cancel_read)
      (rw (t, cancel_read)
        (
          saved_Ended (cancelled_at now run) (others m.file) _
              (save_run-Saves os (cancelled_at now run) (others m.file)) refl s,
          refl,
          refl,
          refl,
        ))

not_refused :
    (stored run : BenchmarkRun)
    → is_terminal run.status ≡ false
    → (if conflicts stored run then stored else run) ≡ run
not_refused stored run t = rw (off (is_terminal stored.status) (is_terminal run.status) _ t) refl
  where
    off : (a b d : Bool) → b ≡ false → ((a && b) && d) ≡ false
    off true false d h = refl
    off false b d h = refl
    off true true d h = absurd cc

-- The guard of `SaveRun` is no guard against a save that is not terminal: where the stored run is
-- terminal, a successful save of a run of its id that is not terminal takes its place.
pub save_run_reopens :
    (os : Os) (file : File) (stored run : BenchmarkRun)
    → get_run run.run_id file ≡ ok stored
    → is_terminal stored.status ≡ true
    → is_terminal run.status ≡ false
    → (save_run os run file).1 ≡ none
    → get_run run.run_id (save_run os run file).0 ≡ ok run
save_run_reopens os file stored run g st t =
    reopened (save_run os run file) (save_run-Saves os run file)
  where
    reopened :
        (r : File × Option Error) → Saves run file r → r.1 ≡ none → get_run run.run_id r.0 ≡ ok run
    reopened (file', some e) s h = absurd cc
    reopened (file', none) (was, a, b, c) h = b ∙ ap ok (not_refused was run t)
