-- ===== src/Orchestrator/Store/Saves.antt =====
-- What `SaveRun` does to the records of the index.
use quant_dominater.Base.{
  ◌+◌, Bool, ◌⊎◌, bit, count_if, count_if-cons, arith, String, true, false, Option, none, some,
  List, [], ◌∷◌, ◌≡◌, refl, str_eq, sym, ◌∙◌, ap, subst, ◌≢◌, Option-cases, str_eq-cases,
  str_eq_self, inl, inr, Bool-cases, if◌then◌else◌,
}
use quant_dominater.Orchestrator.Model.{BenchmarkRun}
use quant_dominater.Orchestrator.Store.{
  Os, Error, ok, Snapshot, File, Saving, absent, refused, replaced, find_run, found, get_run,
  conflicts, save_in, save_run, finish_save, pass_over, load_locked,
}
use quant_dominater.Orchestrator.Store.Calls.{
  locked_snapshot_lem, write_locked_lem, runs_of, runs_of-loaded,
}

-- A later record of the run, as `find_run` sees the list that a save leaves.
abbrev pub runs_after : Saving → List BenchmarkRun → List BenchmarkRun
runs_after (replaced new) old = new
runs_after other old = old

-- Where the head of the list has another id, the loop goes on behind it.
find_run-pass_over :
    (id : String) (r : BenchmarkRun) (saving : Saving) (runs : List BenchmarkRun)
    → find_run id (runs_after saving runs) ≡ find_run id runs
    → find_run id (runs_after (pass_over r saving) (r ∷ runs)) ≡ find_run id (r ∷ runs)
unfolding find_run
find_run-pass_over id r absent runs h = refl
find_run-pass_over id r refused runs h = refl
find_run-pass_over id r (replaced new) runs h = rw h

find_run-pass_over_self :
    (run r : BenchmarkRun) (saving : Saving) (runs : List BenchmarkRun) {x : Option BenchmarkRun}
    → str_eq r.run_id run.run_id ≡ false
    → find_run run.run_id (runs_after saving runs) ≡ x
    → find_run run.run_id (runs_after (pass_over r saving) (r ∷ runs)) ≡ x
unfolding find_run
find_run-pass_over_self run r absent runs h ih = rw h ih
find_run-pass_over_self run r refused runs h ih = rw h ih
find_run-pass_over_self run r (replaced new) runs h ih = rw h ih

pub find_run-cons_ne :
    (id : String) (r : BenchmarkRun) (runs : List BenchmarkRun)
    → str_eq r.run_id id ≡ false
    → find_run id (r ∷ runs) ≡ find_run id runs
unfolding find_run
find_run-cons_ne id r runs h = rw h

pub find_run-cons_self :
    (id : String) (r : BenchmarkRun) (runs : List BenchmarkRun)
    → str_eq r.run_id id ≡ true
    → find_run id (r ∷ runs) ≡ some r
unfolding find_run
find_run-cons_self id r runs h = rw h

-- A save leaves every record of another id.
pub find_run-save_in_ne :
    (id : String) (run : BenchmarkRun) (runs : List BenchmarkRun)
    → str_eq run.run_id id ≡ false
    → find_run id (runs_after (save_in run runs) runs) ≡ find_run id runs
unfolding save_in
find_run-save_in_ne id run [] h = refl
find_run-save_in_ne id run (r ∷ runs) h = elim (str_eq-cases r.run_id run.run_id) [
  | inl (e, p) ↦ elim (Bool-cases (conflicts r run)) [
    | inl c ↦ rw (e, c, save_in)
    | inr c ↦
        rw (e, c, save_in)
          (find_run-cons_ne id run runs h
            ∙ sym (find_run-cons_ne id r runs (subst (λ t. str_eq t id ≡ false) (sym p) h)))
  ]
  | inr e ↦
      rw (e, save_in)
        (find_run-pass_over id r (save_in run runs) runs (find_run-save_in_ne id run runs h))
]

-- What `SaveRun`'s loop does to the run that is stored: `stored` is what the loop finds.
abbrev pub saved_over : BenchmarkRun → Option BenchmarkRun → Option BenchmarkRun
saved_over run none = none
saved_over run (some stored) = some (if conflicts stored run then stored else run)

pub find_run-save_in_self :
    (run : BenchmarkRun) (runs : List BenchmarkRun)
    → find_run run.run_id (runs_after (save_in run runs) runs)
      ≡ saved_over run (find_run run.run_id runs)
unfolding save_in find_run
find_run-save_in_self run [] = refl
find_run-save_in_self run (r ∷ runs) = elim (Bool-cases (str_eq r.run_id run.run_id)) [
  | inl e ↦ elim (Bool-cases (conflicts r run)) [
    | inl c ↦ rw (e, c, save_in, find_run) (rw e)
    | inr c ↦ rw (e, c, save_in, find_run) (rw (str_eq_self run.run_id))
  ]
  | inr e ↦
      rw (e, save_in)
        (find_run-pass_over_self run r (save_in run runs) runs e (find_run-save_in_self run runs))
]

-- What the caller of `SaveRun` can rely on, by how it ended. On an error the file is as it was. On
-- success the run was stored before; it is now the given one, or, where both are terminal and
-- differ, still the stored one; and every other run reads as before.
abbrev pub Saves : BenchmarkRun → File → File × Option Error → Type 0
Saves run file (file', some e) = file' ≡ file
Saves run file (file', none) =
    (stored : BenchmarkRun) × (get_run run.run_id file ≡ ok stored)
    × (get_run run.run_id file' ≡ ok (if conflicts stored run then stored else run))
    × ((id : String) → str_eq run.run_id id ≡ false → get_run id file' ≡ get_run id file)

pub get_run-holds :
    (id : String) (file : File) (snap : Snapshot)
    → load_locked file ≡ ok snap
    → get_run id file ≡ found (find_run id snap.runs)
unfolding get_run
get_run-holds id file snap h = rw (h, get_run)

save_in-absent :
    (run : BenchmarkRun) (runs : List BenchmarkRun)
    → find_run run.run_id runs ≡ none
    → save_in run runs ≡ absent
unfolding save_in find_run
save_in-absent run [] h = refl
save_in-absent run (r ∷ runs) h = elim (Bool-cases (str_eq r.run_id run.run_id)) [
  | inl e ↦ cc (find_run-cons_self run.run_id r runs e)
  | inr e ↦
      rw (e, save_in)
        (rw (save_in-absent run runs (sym (find_run-cons_ne run.run_id r runs e) ∙ h)))
]

module _ (run : BenchmarkRun) (file file' : File) (snap snap' : Snapshot)
    (loaded : load_locked file ≡ ok snap) (left : load_locked file' ≡ ok snap')
    (saved : snap'.runs ≡ runs_after (save_in run snap.runs) snap.runs) where
  -- A file that holds what the loop of `SaveRun` leaves, where the loop found the run.
  after_save : save_in run snap.runs ≢ absent → Saves run file (file', none)
  after_save h = elim (Option-cases (find_run run.run_id snap.runs)) [
    | inl e ↦ absurd (h (save_in-absent run snap.runs e))
    | inr (stored, e) ↦ (
      stored,
      get_run-holds run.run_id file snap loaded ∙ ap found e,
      get_run-holds run.run_id file' snap' left
          ∙ ap found (
              ap (find_run run.run_id) saved
              ∙ find_run-save_in_self run snap.runs
              ∙ ap (saved_over run) e),
      λ id other.
          get_run-holds id file' snap' left
          ∙ ap found (ap (find_run id) saved ∙ find_run-save_in_ne id run snap.runs other)
          ∙ sym (get_run-holds id file snap loaded),
    )
  ]

module _ (os : Os) (run : BenchmarkRun) (file : File) (snap : Snapshot)
    (loaded : load_locked file ≡ ok snap) where
  finish_save-Saves :
      (saving : Saving)
      → saving ≡ save_in run snap.runs
      → Saves run file (finish_save os snap.submissions saving file)
  finish_save-Saves absent e = refl
  finish_save-Saves refused e =
      after_save run file file snap snap loaded loaded (ap (λ s. runs_after s snap.runs) e)
        (λ h. cc)
  finish_save-Saves (replaced runs) e =
      write_locked_lem (Saves run file) os _ file (λ x. refl)
        (after_save run file _ snap (record { submissions = snap.submissions; runs = runs }) loaded
          refl (ap (λ s. runs_after s snap.runs) e) (λ h. cc))

-- On every path of `SaveRun`: an error leaves the file as it was; without one the run was stored
-- before, and now reads as the given one, or as the stored one where both are terminal and differ,
-- and every run of another id reads as before.
pub save_run-Saves :
    (os : Os) (run : BenchmarkRun) (file : File) → Saves run file (save_run os run file)
unfolding save_run
save_run-Saves os run file =
    locked_snapshot_lem (Saves run file) os file (λ e. refl)
      (λ snap loaded. finish_save-Saves os run file snap loaded (save_in run snap.runs) refl)

-- One record is replaced by the run: one of the same id, which the guard lets go.
abbrev pub Replaced : BenchmarkRun → List BenchmarkRun → List BenchmarkRun → Type 0
Replaced run old new =
    (was : BenchmarkRun) × (was.run_id ≡ run.run_id)
    × (conflicts was run ≡ false)
    × ((p : BenchmarkRun → Bool) → count_if p new + bit (p was) ≡ count_if p old + bit (p run))

abbrev ReplacedBy : BenchmarkRun → List BenchmarkRun → Saving → Type 0
ReplacedBy run old (replaced new) = Replaced run old new
ReplacedBy run old other = Unit

pass_over-ReplacedBy :
    (run : BenchmarkRun) (old : List BenchmarkRun) (r : BenchmarkRun) (s : Saving)
    → ReplacedBy run old s
    → ReplacedBy run (r ∷ old) (pass_over r s)
pass_over-ReplacedBy run old r (replaced new) (was, e, c, counts) =
    (was, e, c, λ p. omega (arith, counts p, count_if-cons p r new, count_if-cons p r old))
pass_over-ReplacedBy run old r absent h = tt
pass_over-ReplacedBy run old r refused h = tt

save_in-ReplacedBy :
    (run : BenchmarkRun) (runs : List BenchmarkRun) → ReplacedBy run runs (save_in run runs)
unfolding save_in
save_in-ReplacedBy run [] = tt
save_in-ReplacedBy run (r ∷ runs) = elim (str_eq-cases r.run_id run.run_id) [
  | inl (e, p) ↦ elim (Bool-cases (conflicts r run)) [
    | inl c ↦ rw (e, c, save_in) tt
    | inr c ↦
        rw (e, c, save_in)
          (r, p, c, λ p. omega (arith, count_if-cons p r runs, count_if-cons p run runs))
  ]
  | inr e ↦ rw (e, save_in) (pass_over-ReplacedBy run runs r _ (save_in-ReplacedBy run runs))
]

abbrev ReplacesOne : BenchmarkRun → File → File × Option Error → Type 0
ReplacesOne run file (file', e) = (file' ≡ file) ⊎ Replaced run (runs_of file) (runs_of file')

finish_save-Replaced :
    (os : Os) (run : BenchmarkRun) (file : File) (snap : Snapshot) (s : Saving)
    → ReplacedBy run (runs_of file) s
    → ReplacesOne run file (finish_save os snap.submissions s file)
finish_save-Replaced os run file snap absent h = inl refl
finish_save-Replaced os run file snap refused h = inl refl
finish_save-Replaced os run file snap (replaced new) h =
    write_locked_lem (ReplacesOne run file) os _ file (λ x. inl refl) (inr h)

-- `SaveRun` leaves the file, or replaces one record and no other.
pub save_run-Replaced :
    (os : Os) (run : BenchmarkRun) (file : File)
    → let file' = (save_run os run file).0 in
      (file' ≡ file) ⊎ Replaced run (runs_of file) (runs_of file')
unfolding save_run
save_run-Replaced os run file =
    locked_snapshot_lem (ReplacesOne run file) os file (λ e. inl refl)
      (λ snap loaded.
        finish_save-Replaced os run file snap (save_in run snap.runs)
          (rw (runs_of-loaded file snap loaded) (save_in-ReplacedBy run snap.runs)))
