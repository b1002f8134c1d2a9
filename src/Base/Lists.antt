-- ===== src/Base/Lists.antt =====
-- Lists measured by native numbers, and predicates on all elements.
use Prim.Native.Nat.{ℕ, zero, suc, ◌+◌}
use mathlib.Core.Option
use mathlib.Core.Path.{◌≡◌, refl, ap, subst}
use mathlib.Core.Bool.{Bool, true, false}
use mathlib.Core.List.{List, [], ◌∷◌, ◌++◌}
use mathlib.Core.Option.{Option, none, some}
use native.Mathlib.Omega.{arith}

module _ {ℓ} {A : Type ℓ} where
  abbrev pub length : List A → ℕ
  length [] = 0
  length (x ∷ xs) = suc (length xs)

  abbrev pub get_elem? : List A → ℕ → Option A
  get_elem? [] i = none
  get_elem? (x ∷ xs) zero = some x
  get_elem? (x ∷ xs) (suc i) = get_elem? xs i

  abbrev pub take : ℕ → List A → List A
  take zero xs = []
  take (suc n) [] = []
  take (suc n) (x ∷ xs) = x ∷ take n xs

  abbrev pub drop : ℕ → List A → List A
  drop zero xs = xs
  drop (suc n) [] = []
  drop (suc n) (x ∷ xs) = drop n xs

  -- The element at an index goes, if there is one.
  abbrev pub drop_at : ℕ → List A → List A
  drop_at i [] = []
  drop_at zero (x ∷ xs) = xs
  drop_at (suc i) (x ∷ xs) = x ∷ drop_at i xs

  pub length-drop_at :
      (x : A) (i : ℕ) (xs : List A)
      → get_elem? xs i ≡ some x
      → suc (length (drop_at i xs)) ≡ length xs
  length-drop_at x i [] h = absurd cc
  length-drop_at x zero (y ∷ ys) h = refl
  length-drop_at x (suc i) (y ∷ ys) h = ap suc (length-drop_at x i ys h)

  pub length-append : (xs ys : List A) → length (xs ++ ys) ≡ length xs + length ys
  length-append [] ys = omega arith
  length-append (x ∷ xs) ys = omega (arith, length-append xs ys)

abbrev pub All {ℓ κ} : {A : Type ℓ} → (A → Type κ) → List A → Type κ
All P [] = Unit
All P (x ∷ xs) = P x × All P xs

pub All-append {ℓ κ} :
    {A : Type ℓ} (P : A → Type κ) (xs ys : List A) → All P xs → All P ys → All P (xs ++ ys)
All-append P [] ys hx hy = hy
All-append P (x ∷ xs) ys hx hy = (hx.0, All-append P xs ys hx.1 hy)

pub All-drop_at {ℓ κ} :
    {A : Type ℓ} (P : A → Type κ) (x : A) (i : ℕ) (xs : List A)
    → get_elem? xs i ≡ some x
    → All P xs
    → P x × All P (drop_at i xs)
All-drop_at P x i [] h a = absurd cc
All-drop_at P x zero (y ∷ ys) h a = (subst P (Option.some_inj.0 h) a.0, a.1)
All-drop_at P x (suc i) (y ∷ ys) h a = let (p, q) = All-drop_at P x i ys h a.1 in (p, (a.0, q))

-- 1 for true: what an element adds to a count.
abbrev pub bit : Bool → ℕ
bit true = 1
bit false = 0

unfoldable pub count_if {ℓ} : {A : Type ℓ} → (A → Bool) → List A → ℕ
count_if p [] = 0
count_if p (x ∷ xs) = bit (p x) + count_if p xs

pub count_if-cons {ℓ} :
    {A : Type ℓ} (p : A → Bool) (x : A) (xs : List A)
    → count_if p (x ∷ xs) ≡ bit (p x) + count_if p xs
unfolding count_if
count_if-cons p x xs = refl

pub count_if-nil {ℓ} : {A : Type ℓ} (p : A → Bool) → count_if {A = A} p [] ≡ 0
unfolding count_if
count_if-nil p = refl
