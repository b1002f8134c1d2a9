-- ===== src/Base/Keys.antt =====
-- Lists of named things: the cancel functions of a manager by the ids of their runs, and the runs that
-- execute.
use mathlib.Core.Option
use mathlib.Core.Path.{◌≡◌, refl, sym, ap, ◌∙◌}
use mathlib.Core.Logic.{inl, inr}
use mathlib.Core.Bool.{Bool, true, false}
use mathlib.Core.Option.{Option, some}
use mathlib.Core.List.{List, [], ◌∷◌}
use Prim.Native.Nat.{ℕ, zero, suc}
use Prim.Native.String.{String}
use text.Mathlib.Text.{◌==◌ as str_eq}
use quant_dominater.Base.{if◌then◌else◌, Bool-cases, str_eq-cases, str_eq_self, get_elem?, drop_at}

module _ {A : Type 0} (name : A → String) where
  abbrev pub has_key : String → List A → Bool
  has_key id [] = false
  has_key id (x ∷ xs) = if str_eq (name x) id then true else has_key id xs

  -- Another element goes.
  pub has_key-drop_at :
      (x : A) (id : String) (i : ℕ) (xs : List A)
      → get_elem? xs i ≡ some x
      → str_eq (name x) id ≡ false
      → has_key id xs ≡ true
      → has_key id (drop_at i xs) ≡ true
  has_key-drop_at x id i [] h e = λ k. absurd cc
  has_key-drop_at x id zero (y ∷ ys) h e =
      rw (ap (λ z. str_eq (name z) id) (Option.some_inj.0 h) ∙ e, has_key) (λ k. k)
  has_key-drop_at x id (suc i) (y ∷ ys) h e = elim (Bool-cases (str_eq (name y) id)) [
    | inl f ↦ rw (f, has_key) (λ k. refl)
    | inr f ↦ rw (f, has_key) (λ k. has_key-drop_at x id i ys h e k)
  ]

-- `delete(m.cancels, id)`
abbrev pub remove_cancel : String → List String → List String
remove_cancel id [] = []
remove_cancel id (k ∷ ks) = if str_eq k id then remove_cancel id ks else k ∷ remove_cancel id ks

abbrev pub has_cancel : String → List String → Bool
has_cancel id [] = false
has_cancel id (k ∷ ks) = if str_eq k id then true else has_cancel id ks

other_text : (j k id : String) → str_eq j k ≡ false → j ≡ id → str_eq k id ≡ false
other_text j k id e ji = elim (str_eq-cases k id) [
  | inl (f, ki) ↦ absurd (cc (str_eq_self j))
  | inr f ↦ f
]

pub has_cancel-remove_cancel :
    (id k : String) (ks : List String)
    → has_cancel id (remove_cancel k ks) ≡ true
    → (str_eq k id ≡ false) × (has_cancel id ks ≡ true)
has_cancel-remove_cancel id k [] = λ h. absurd cc
has_cancel-remove_cancel id k (j ∷ ks) = elim (str_eq-cases j k) [
  | inl (e, jk) ↦
      rw (e, remove_cancel)
        (λ h.
          let (ne, rest) = has_cancel-remove_cancel id k ks h in (ne, rw (jk, ne, has_cancel) rest))
  | inr e ↦ elim (str_eq-cases j id) [
    | inl (f, ji) ↦ rw (e, remove_cancel) (λ h. (other_text j k id e ji, rw (f, has_cancel) refl))
    | inr f ↦ rw (e, remove_cancel) (rw (f, has_cancel) (λ h. has_cancel-remove_cancel id k ks h))
  ]
]

pub no_cancels : (ks : List String) → ((id : String) → has_cancel id ks ≡ true → ⊥) → ks ≡ []
no_cancels [] h = refl
no_cancels (k ∷ ks) h = absurd (h k (rw (str_eq_self k, has_cancel) refl))

module _ {A : Type 0} (name : A → String) where
  -- The element of that name is replaced, or the new one goes to the end.
  unfoldable pub upsert : A → List A → List A
  upsert a [] = a ∷ []
  upsert a (x ∷ xs) =
      let rest = upsert a xs in if str_eq (name x) (name a) then a ∷ xs else x ∷ rest

  -- Any search by name that goes from the first element to the last.
  module _ (find : String → List A → Option A)
      (find_self : (id : String) (x : A) (xs : List A)
        → str_eq (name x) id ≡ true
        → find id (x ∷ xs) ≡ some x)
      (find_ne : (id : String) (x : A) (xs : List A)
        → str_eq (name x) id ≡ false
        → find id (x ∷ xs) ≡ find id xs) where
    pub find-upsert_self : (a : A) (xs : List A) → find (name a) (upsert a xs) ≡ some a
    unfolding upsert
    find-upsert_self a [] = find_self (name a) a [] (str_eq_self (name a))
    find-upsert_self a (x ∷ xs) = elim (Bool-cases (str_eq (name x) (name a))) [
      | inl e ↦ rw (e, upsert) (find_self (name a) a xs (str_eq_self (name a)))
      | inr e ↦ rw (e, upsert) (find_ne (name a) x _ e ∙ find-upsert_self a xs)
    ]

    pub find-upsert_ne :
        (id : String) (a : A) (xs : List A)
        → str_eq (name a) id ≡ false
        → find id (upsert a xs) ≡ find id xs
    unfolding upsert
    find-upsert_ne id a [] h = find_ne id a [] h
    find-upsert_ne id a (x ∷ xs) h = elim (str_eq-cases (name x) (name a)) [
      | inl (e, p) ↦
          rw (e, upsert) (find_ne id a xs h ∙ sym (find_ne id x xs (ap (λ s. str_eq s id) p ∙ h)))
      | inr e ↦ elim (Bool-cases (str_eq (name x) id)) [
        | inl f ↦ rw (e, upsert) (find_self id x _ f ∙ sym (find_self id x xs f))
        | inr f ↦
            rw (e, upsert) (find_ne id x _ f ∙ find-upsert_ne id a xs h ∙ sym (find_ne id x xs f))
      ]
    ]
