-- ===== src/Control/Store/Saves.antt =====
-- What `Save` of services/control-panel/internal/store/json_store.go does to the runs in the file.
use mathlib.Core.Option
use quant_dominater.Base.{
  String, true, false, Option, none, some, List, [], ◌∷◌, map, ◌≡◌, ◌⊎◌, inl, inr, refl, sym, ap,
  ◌∙◌, subst, str_eq, str_eq-cases, Bool-cases,
}
use quant_dominater.Orchestrator.Store.{Error, ok, err, found, ◌or_else◌}
use quant_dominater.Control.Model.{BenchmarkRun}
use quant_dominater.Control.Store.{
  File, missing, unreadable, empty, garbage, holds, Runs, Os, Order, find, put, collect, load,
  encode, write, clashes, save, get,
}
use quant_dominater.Control.Store.Guard.{Overturns, clashes-Overturns, not_clashes-Overturns}
use quant_dominater.Control.Store.Records.{
  Fresh, Keyed, find-cons_ne, find-cons_self, find-put_self, find-put_ne, Keyed-put, Keyed-collect,
  Reorders, Keyed-perm, find-perm,
}

abbrev first_of : Option BenchmarkRun → Option BenchmarkRun → Option BenchmarkRun
first_of none o = o
first_of (some r) o = some r

find-Fresh : (id : String) (rs : Runs) → Fresh id rs → find id rs ≡ none
unfolding find
find-Fresh id [] f = refl
find-Fresh id (r ∷ rs) f = rw f.0 (find-Fresh id rs f.1)

-- What the load makes of the entries that a write left.
find-collect :
    (id : String) (xs rs : Runs)
    → Keyed xs
    → find id (collect (map some xs) rs) ≡ first_of (find id xs) (find id rs)
unfolding collect find
find-collect id [] rs k = refl
find-collect id (x ∷ xs) rs k =
    rw (k.1, collect)
      (find-collect id xs (put x rs) k.2 ∙ elim (str_eq-cases x.run_id id) [
        | inl (e, p) ↦
            ap (λ o. first_of o (find id (put x rs)))
              (find-Fresh id xs (subst (λ s. Fresh s xs) p k.0))
            ∙ ap (λ s. find s (put x rs)) (sym p)
            ∙ find-put_self x rs
            ∙ ap (λ o. first_of o (find id rs)) (sym (find-cons_self id x xs e))
        | inr e ↦
            ap (first_of (find id xs)) (find-put_ne id x rs e)
            ∙ ap (λ o. first_of o (find id rs)) (sym (find-cons_ne id x xs e))
      ])

first_of-none : (o : Option BenchmarkRun) → first_of o none ≡ o
first_of-none none = refl
first_of-none (some r) = refl

load-cases :
    (file : File)
    → ((e : Error) × (load file ≡ err e)) ⊎ ((runs : Runs) × (load file ≡ ok runs) × Keyed runs)
unfolding load
load-cases missing = inr ([], refl, tt)
load-cases (unreadable e) = inl (e, refl)
load-cases empty = inr ([], refl, tt)
load-cases (garbage e) = inl (e, refl)
load-cases (holds list) = inr (collect list [], refl, Keyed-collect list [] tt)

get-loaded :
    (id : String) (file : File) (runs : Runs)
    → load file ≡ ok runs
    → get id file ≡ found (find id runs)
unfolding get
get-loaded id file runs h = rw (h, get)

get-failed : (id : String) (file : File) (e : Error) → load file ≡ err e → get id file ≡ err e
unfolding get
get-failed id file e h = rw (h, get)

load-holds : (list : List (Option BenchmarkRun)) → load (holds list) ≡ ok (collect list [])
unfolding load
load-holds list = refl

find-nil : (id : String) → find id [] ≡ none
unfolding find
find-nil id = refl

-- What a write leaves reads as the map that was written.
get-written :
    (id : String) (order : Order) (runs : Runs)
    → Reorders order
    → Keyed runs
    → get id (holds (map some (order runs))) ≡ found (find id runs)
get-written id order runs perm k =
    get-loaded id _ _ (load-holds (map some (order runs)))
    ∙ ap found (
        find-collect id (order runs) [] (Keyed-perm (perm runs) k)
        ∙ ap (first_of (find id (order runs))) (find-nil id)
        ∙ first_of-none (find id (order runs))
        ∙ sym (find-perm id (perm runs) k))

-- A write fails and leaves the file, or replaces it by the entries.
module _ (P : File × Option Error → Type 0) (os : Os) (order : Order) (runs : Runs) (file : File)
    (on_fail : (e : Error) → P (file, some e))
    (on_written : P (holds (map some (order runs)), none)) where
  write_lem : P (write os order runs file)
  unfolding write
  write_lem =
      elim (((os.mkdir or_else encode (order runs)) or_else os.write_file) or_else os.rename)
        as (λ r.
          P (elim r [ none ↦ (holds (map some (order runs)), none) | some e ↦ (file, some e) ])) [
            | some e ↦ on_fail e
            | none ↦ on_written
          ]

-- What the caller of `Save` can rely on, by how it ended.
abbrev pub Saves : BenchmarkRun → File → File × Option Error → Type 0
Saves run file (file', some e) = file' ≡ file
Saves run file (file', none) =
    (((get run.run_id file' ≡ ok run)
        × ((stored : BenchmarkRun) → get run.run_id file ≡ ok stored → ¬ Overturns stored run))
      ⊎ ((stored : BenchmarkRun) × (get run.run_id file ≡ ok stored)
          × Overturns stored run
          × (file' ≡ file)))
    × ((id : String) → str_eq run.run_id id ≡ false → get id file' ≡ get id file)

clashes_none :
    (o : Option BenchmarkRun) (run : BenchmarkRun)
    → clashes o run ≡ true
    → (stored : BenchmarkRun) × (o ≡ some stored) × Overturns stored run
clashes_none none run h = absurd (cc h)
clashes_none (some r) run h = (r, refl, clashes-Overturns r run h)

module _ (os : Os) (order : Order) (run : BenchmarkRun) (file : File) (perm : Reorders order)
    (named : str_eq run.run_id "" ≡ false) (runs : Runs) (loaded : load file ≡ ok runs)
    (keyed : Keyed runs) where
  refused-Saves : clashes (find run.run_id runs) run ≡ true → Saves run file (file, none)
  refused-Saves h =
      let (stored, e, c) = clashes_none (find run.run_id runs) run h in
      (inr (stored, get-loaded run.run_id file runs loaded ∙ ap found e, c, refl), λ id other. refl)

  written-Saves :
      clashes (find run.run_id runs) run ≡ false
      → Saves run file (holds (map some (order (put run runs))), none)
  written-Saves h = (
    inl (
      get-written run.run_id order (put run runs) perm (Keyed-put run runs named keyed)
          ∙ ap found (find-put_self run runs),
      λ stored e. not_clashes-Overturns stored run (
          ap (λ o. clashes o run) (found_inj (sym e ∙ get-loaded run.run_id file runs loaded)) ∙ h),
    ),
    λ id other.
        get-written id order (put run runs) perm (Keyed-put run runs named keyed)
        ∙ ap found (find-put_ne id run runs other)
        ∙ sym (get-loaded id file runs loaded),
  )
    where
      found_inj : {r : BenchmarkRun} {o : Option BenchmarkRun} → ok r ≡ found o → some r ≡ o
      found_inj {o = none} e = cc e
      found_inj {o = some x} e = cc e

-- On every path of Save of a run with an id, for any order of the entries: an error leaves the file
-- as it was; without one the run reads as the given one, which was not stored with another terminal
-- status where the given one is terminal, or else it was stored so and the file is as it was; and
-- every run of another id reads as before.
pub save-Saves :
    (os : Os) (order : Order) (run : BenchmarkRun) (file : File)
    → Reorders order
    → str_eq run.run_id "" ≡ false
    → Saves run file (save os order run file)
unfolding save
save-Saves os order run file perm named = elim (load-cases file) [
  | inl (e, h) ↦ rw (h, save) refl
  | inr (runs, h, k) ↦ elim (Bool-cases (clashes (find run.run_id runs) run)) [
    | inl c ↦ rw (h, save) (rw c (refused-Saves os order run file perm named runs h k c))
    | inr c ↦
        rw (h, save)
          (rw c (
            write_lem (Saves run file) os order (put run runs) file (λ e. refl)
              (written-Saves os order run file perm named runs h k c)))
  ]
]

find-run_id : (id : String) (rs : Runs) (r : BenchmarkRun) → find id rs ≡ some r → r.run_id ≡ id
unfolding find
find-run_id id [] r h = absurd (cc h)
find-run_id id (x ∷ xs) r h = elim (str_eq-cases x.run_id id) [
  | inl (e, p) ↦
      ap (λ (y : BenchmarkRun). y.run_id) (Option.some_inj.0 (sym h ∙ find-cons_self id x xs e)) ∙ p
  | inr e ↦ find-run_id id xs r (sym (find-cons_ne id x xs e) ∙ h)
]

find-named :
    (id : String) (rs : Runs) (r : BenchmarkRun)
    → Keyed rs
    → find id rs ≡ some r
    → str_eq r.run_id "" ≡ false
unfolding find
find-named id [] r k h = absurd (cc h)
find-named id (x ∷ xs) r k h = elim (Bool-cases (str_eq x.run_id id)) [
  | inl e ↦
      subst (λ (y : BenchmarkRun). str_eq y.run_id "" ≡ false)
        (Option.some_inj.0 (sym (find-cons_self id x xs e) ∙ h)) k.1
  | inr e ↦ find-named id xs r k.2 (sym (find-cons_ne id x xs e) ∙ h)
]

-- What `Get` returns stands under the id that was asked for, which is not empty.
pub get-run_id :
    (id : String) (file : File) (r : BenchmarkRun)
    → get id file ≡ ok r
    → (r.run_id ≡ id) × (str_eq r.run_id "" ≡ false)
get-run_id id file r h = elim (load-cases file) [
  | inl (e, l) ↦ absurd (refused e l)
  | inr (runs, l, k) ↦
      let f : find id runs ≡ some r =
        found_some (find id runs) (sym (get-loaded id file runs l) ∙ h) in
      (find-run_id id runs r f, find-named id runs r k f)
]
  where
    found_some : (o : Option BenchmarkRun) → found o ≡ ok r → o ≡ some r
    found_some none e = absurd (cc e)
    found_some (some x) e = cc e

    refused : (e : Error) → load file ≡ err e → ⊥
    refused e l = cc (get-failed id file e l)
