-- ===== src/Engine/Removal.antt =====
-- `removeOrder` of examples/stub-engine/main.go removes exactly the order that it is given.
use mathlib.Core.Option
use quant_dominater.Base.{
  ℕ, zero, suc, Bool, true, false, not, Option, none, some, List, [], ◌∷◌, ◌≡◌, refl, ap, ◌∙◌,
  length, get_elem?, All, ◌==◌, if◌then◌else◌, arith, inl, inr, Bool-cases,
}
use quant_dominater.Engine.Order.{Side, buy, sell, Order, order_before, order_before_trans}
use quant_dominater.Engine.Search.{IsMonotone, IsFirst, search-IsFirst}
use quant_dominater.Engine.Book.{test_at, remove_found, remove_order, IsLadder}

-- The linear scan that the binary search replaces: by the address alone.
unfoldable pub remove_plain : Order → List Order → Option (List Order)
remove_plain ord [] = none
remove_plain ord (x ∷ s) =
    if x.addr == ord.addr then some s else Option.map (λ l. x ∷ l) (remove_plain ord s)

-- What an order is compared by does not change once it is made: the record at its address has it.
abbrev pub SameKey : Order → Order → Type 0
SameKey ord x =
    (x.addr == ord.addr) ≡ true
    → (x.price ≡ ord.price) × (x.ts_ns ≡ ord.ts_ns) × (x.insert_seq ≡ ord.insert_seq)

before_same_key :
    (side : Side) (broken : Bool) (w x ord : Order)
    → (x.price ≡ ord.price) × (x.ts_ns ≡ ord.ts_ns) × (x.insert_seq ≡ ord.insert_seq)
    → order_before side broken w x ≡ order_before side broken w ord
unfolding order_before
before_same_key side broken w x ord (p, t, i) =
    λ j. order_before side broken w (record x { price = p j; ts_ns = t j; insert_seq = i j })

not_before_self :
    (side : Side) (broken : Bool) (x ord : Order)
    → (x.price ≡ ord.price) × (x.ts_ns ≡ ord.ts_ns) × (x.insert_seq ≡ ord.insert_seq)
    → order_before side broken x ord ≡ false
unfolding order_before
not_before_self buy broken x ord (p, t, i) = ground arith
not_before_self sell broken x ord (p, t, i) = ground arith

module _ (broken : Bool) (ord : Order) where
  abbrev before : Order → Bool
  before x = order_before ord.side broken x ord

  abbrev reached : List Order → ℕ → Bool
  reached s = test_at (λ x. not (before x)) s

  later_reached :
      (x : Order) (s : List Order) (j : ℕ)
      → before x ≡ false
      → All (λ y. order_before ord.side broken x y ≡ true) s
      → reached s j ≡ true
  later_reached x [] j e h = refl
  later_reached x (y ∷ s) zero e h = elim (Bool-cases (before y)) [
    | inl b ↦ cc (order_before_trans ord.side broken x y ord h.0 b)
    | inr b ↦ ap not b
  ]
  later_reached x (y ∷ s) (suc j) e h = later_reached x s j e h.1

  not-true : (b : Bool) → not b ≡ true → b ≡ false
  not-true false h = refl
  not-true true h = cc

  not-false : (b : Bool) → not b ≡ false → b ≡ true
  not-false true h = refl
  not-false false h = cc

  reached_mono : (s : List Order) → IsLadder ord.side broken s → IsMonotone (length s) (reached s)
  reached_mono [] h i j ij jn e = absurd (omega arith)
  reached_mono (x ∷ s) h zero zero ij jn e = e
  reached_mono (x ∷ s) h zero (suc j) ij jn e = later_reached x s j (not-true (before x) e) h.0
  reached_mono (x ∷ s) h (suc i) zero ij jn e = absurd (omega arith)
  reached_mono (x ∷ s) h (suc i) (suc j) ij jn e =
      reached_mono s h.1 i j (omega arith) (omega arith) e

  absent :
      (x : Order) (s : List Order)
      → before x ≡ false
      → All (λ y. order_before ord.side broken x y ≡ true) s
      → All (SameKey ord) s
      → remove_plain ord s ≡ none
  unfolding remove_plain
  absent x [] e h k = refl
  absent x (y ∷ s) e h k = elim (Bool-cases (y.addr == ord.addr)) [
    | inl a ↦ cc (before_same_key ord.side broken x y ord (k.0 a))
    | inr a ↦ rw (a, remove_plain) (rw (absent x s e h.1 k.1))
  ]

  found_behind :
      (x : Order) (s : List Order) (i : ℕ) (o : Option Order)
      → remove_found ord (x ∷ s) (suc i) o ≡ Option.map (λ l. x ∷ l) (remove_found ord s i o)
  found_behind x s i none = refl
  found_behind x s i (some y) = elim (Bool-cases (y.addr == ord.addr)) [
    | inl a ↦ rw a
    | inr a ↦ rw a
  ]

  found_plain :
      (s : List Order) (i : ℕ)
      → IsLadder ord.side broken s
      → All (SameKey ord) s
      → IsFirst (length s) (reached s) i
      → remove_found ord s i (get_elem? s i) ≡ remove_plain ord s
  unfolding remove_plain
  found_plain [] i h k f = refl
  found_plain (x ∷ s) zero h k f =
      let e : before x ≡ false = not-true (before x) (f.above 0 (omega arith) (omega arith)) in
      elim (Bool-cases (x.addr == ord.addr)) [
        | inl a ↦ rw (a, remove_plain)
        | inr a ↦ rw (a, remove_plain) (rw (absent x s e h.0 k.1))
      ]
  found_plain (x ∷ s) (suc i) h k f =
      let e : before x ≡ true = not-false (before x) (f.below 0 (omega arith)) in
      elim (Bool-cases (x.addr == ord.addr)) [
        | inl a ↦ cc (not_before_self ord.side broken x ord (k.0 a))
        | inr a ↦
            rw (a, remove_plain)
              (found_behind x s i (get_elem? s i)
                ∙ ap (Option.map (λ l. x ∷ l)) (
                    found_plain s i h.1 k.1 (record {
                      within = omega (arith, f.within);
                      below = λ k p. f.below (suc k) (omega arith);
                      above = λ k p q. f.above (suc k) (omega arith) (omega arith);
                    })))
      ]

  -- On a ladder whose records keep what they are compared by, `removeOrder` is the linear scan for
  -- the order's address: it takes that order out wherever it rests, and reports no other.
  pub remove_order-plain :
      (s : List Order)
      → IsLadder ord.side broken s
      → All (SameKey ord) s
      → remove_order broken ord s ≡ remove_plain ord s
  unfolding remove_order
  remove_order-plain s h k =
      found_plain s _ h k (search-IsFirst (length s) (reached s) (reached_mono s h))
