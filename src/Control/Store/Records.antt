-- ===== src/Control/Store/Records.antt =====
-- The map of runs: what a lookup finds behind an insertion and in any order of the entries.
use mathlib.Core.List.{Permᴰ}
use quant_dominater.Base.{
  String, true, false, Option, none, some, List, [], ◌∷◌, ◌≡◌, ◌≢◌, refl, sym, ap, ◌∙◌, subst,
  subst₂, str_eq, str_eq-cases, str_eq_self, Bool-cases, inl, inr, if◌then◌else◌,
}
use quant_dominater.Base.Keys.{upsert, find-upsert_self, find-upsert_ne}
use quant_dominater.Control.Model.{BenchmarkRun}
use quant_dominater.Control.Store.{Runs, Order, find, put, put_element, collect}

-- No record has the id.
abbrev pub Fresh : String → Runs → Type 0
Fresh id [] = Unit
Fresh id (r ∷ rs) = (str_eq r.run_id id ≡ false) × Fresh id rs

-- The keys of the map: every record under its own id, which is not empty.
abbrev pub Keyed : Runs → Type 0
Keyed [] = Unit
Keyed (r ∷ rs) = Fresh r.run_id rs × (str_eq r.run_id "" ≡ false) × Keyed rs

pub find-cons_ne :
    (id : String) (r : BenchmarkRun) (rs : Runs)
    → str_eq r.run_id id ≡ false
    → find id (r ∷ rs) ≡ find id rs
unfolding find
find-cons_ne id r rs h = rw h

pub find-cons_self :
    (id : String) (r : BenchmarkRun) (rs : Runs)
    → str_eq r.run_id id ≡ true
    → find id (r ∷ rs) ≡ some r
unfolding find
find-cons_self id r rs h = rw h

abbrev run_key : BenchmarkRun → String
run_key run = run.run_id

pub find-put_self : (run : BenchmarkRun) (rs : Runs) → find run.run_id (put run rs) ≡ some run
find-put_self = find-upsert_self run_key find find-cons_self find-cons_ne

pub find-put_ne :
    (id : String) (run : BenchmarkRun) (rs : Runs)
    → str_eq run.run_id id ≡ false
    → find id (put run rs) ≡ find id rs
find-put_ne = find-upsert_ne run_key find find-cons_self find-cons_ne

Fresh-put :
    (id : String) (run : BenchmarkRun) (rs : Runs)
    → str_eq run.run_id id ≡ false
    → Fresh id rs
    → Fresh id (put run rs)
unfolding upsert
Fresh-put id run [] h f = (h, tt)
Fresh-put id run (r ∷ rs) h f = elim (Bool-cases (str_eq r.run_id run.run_id)) [
  | inl e ↦ rw (e, upsert) (h, f.1)
  | inr e ↦ rw (e, upsert) (f.0, Fresh-put id run rs h f.1)
]

str_eq_sym : (a b : String) → str_eq a b ≡ false → str_eq b a ≡ false
str_eq_sym a b h = elim (str_eq-cases b a) [
  | inl (e, p) ↦ absurd (true≢false (sym (ap (λ s. str_eq s b) (sym p) ∙ str_eq_self b) ∙ h))
  | inr e ↦ e
]
  where
    true≢false : true ≢ false
    true≢false h = cc

pub Keyed-put :
    (run : BenchmarkRun) (rs : Runs) → str_eq run.run_id "" ≡ false → Keyed rs → Keyed (put run rs)
unfolding upsert
Keyed-put run [] h k = (tt, h, tt)
Keyed-put run (r ∷ rs) h k = elim (str_eq-cases r.run_id run.run_id) [
  | inl (e, p) ↦ rw (e, upsert) (subst (λ s. Fresh s rs) p k.0, h, k.2)
  | inr e ↦
      rw (e, upsert)
        (
          Fresh-put r.run_id run rs (str_eq_sym r.run_id run.run_id e) k.0,
          k.1,
          Keyed-put run rs h k.2,
        )
]

pub Keyed-collect :
    (list : List (Option BenchmarkRun)) (rs : Runs) → Keyed rs → Keyed (collect list rs)
unfolding collect
Keyed-collect [] rs k = k
Keyed-collect (none ∷ os) rs k = Keyed-collect os rs k
Keyed-collect (some r ∷ os) rs k =
    Keyed-collect os (put_element (some r) rs) (elim (Bool-cases (str_eq r.run_id "")) [
      | inl e ↦ rw e k
      | inr e ↦ rw e (Keyed-put r rs e k)
    ])

-- What ranging over the map and sorting leave: every entry once.
abbrev pub Reorders : Order → Type 0
Reorders order = (runs : Runs) → Permᴰ runs (order runs)

find-head :
    (id : String) {a b : BenchmarkRun} (xs ys : Runs)
    → a ≡ b
    → find id xs ≡ find id ys
    → find id (a ∷ xs) ≡ find id (b ∷ ys)
unfolding find
find-head id {b = b} xs ys e h =
    ap (λ r. if str_eq r.run_id id then some r else find id xs) e
    ∙ ap (λ o. if str_eq b.run_id id then some b else o) h

find-swap :
    (id : String) (a b : BenchmarkRun) (l : Runs)
    → str_eq b.run_id a.run_id ≡ false
    → find id (a ∷ b ∷ l) ≡ find id (b ∷ a ∷ l)
find-swap id a b l h = elim (str_eq-cases a.run_id id) [
  | inl (e, p) ↦
      let other : str_eq b.run_id id ≡ false = subst (λ s. str_eq b.run_id s ≡ false) p h in
      find-cons_self id a (b ∷ l) e
      ∙ sym (find-cons_ne id b (a ∷ l) other ∙ find-cons_self id a l e)
  | inr e ↦ find-cons_ne id a (b ∷ l) e ∙ sym (find-head id (a ∷ l) l refl (find-cons_ne id a l e))
]

Fresh-perm : (id : String) {xs ys : Runs} → Permᴰ xs ys → Fresh id xs → Fresh id ys
Fresh-perm id Permᴰ.nil f = tt
Fresh-perm id (Permᴰ.cons e p) f =
    (subst (λ r. str_eq r.run_id id ≡ false) e f.0, Fresh-perm id p f.1)
Fresh-perm id (Permᴰ.swap e g) f = (
  subst (λ r. str_eq r.run_id id ≡ false) g f.1.0,
  (subst (λ r. str_eq r.run_id id ≡ false) e f.0, f.1.1),
)
Fresh-perm id (Permᴰ.trans p q) f = Fresh-perm id q (Fresh-perm id p f)

pub Keyed-perm : {xs ys : Runs} → Permᴰ xs ys → Keyed xs → Keyed ys
Keyed-perm Permᴰ.nil k = tt
Keyed-perm (Permᴰ.cons {a} {b} {l₁} {l₂} e p) k = (
  subst (λ r. Fresh r.run_id l₂) e (Fresh-perm a.run_id p k.0),
  subst (λ r. str_eq r.run_id "" ≡ false) e k.1,
  Keyed-perm p k.2,
)
Keyed-perm (Permᴰ.swap {a} {b} {a'} {b'} {l} e g) k = (
  (
    subst₂ (λ (x y : BenchmarkRun). str_eq x.run_id y.run_id ≡ false) e g
        (str_eq_sym b.run_id a.run_id k.0.0),
    subst (λ r. Fresh r.run_id l) g k.2.0,
  ),
  subst (λ r. str_eq r.run_id "" ≡ false) g k.2.1,
  (subst (λ r. Fresh r.run_id l) e k.0.1, subst (λ r. str_eq r.run_id "" ≡ false) e k.1, k.2.2),
)
Keyed-perm (Permᴰ.trans p q) k = Keyed-perm q (Keyed-perm p k)

-- A lookup does not depend on the order of the entries.
pub find-perm : (id : String) {xs ys : Runs} → Permᴰ xs ys → Keyed xs → find id xs ≡ find id ys
find-perm id Permᴰ.nil k = refl
find-perm id (Permᴰ.cons e p) k = find-head id _ _ e (find-perm id p k.2)
find-perm id (Permᴰ.swap {a} {b} {a'} {b'} {l} e g) k =
    find-swap id a b l k.0.0 ∙ find-head id (a ∷ l) (b' ∷ l) g (find-head id l l e refl)
find-perm id (Permᴰ.trans p q) k = find-perm id p k ∙ find-perm id q (Keyed-perm p k)
