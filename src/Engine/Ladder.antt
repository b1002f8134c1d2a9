-- ===== src/Engine/Ladder.antt =====
-- `insertSorted` of examples/stub-engine/main.go keeps a side in order.
use quant_dominater.Base.{
  ℕ, zero, suc, ◌<◌, Bool, true, List, [], ◌∷◌, ◌≡◌, refl, ap, length, All, if◌then◌else◌, arith,
  inl, inr, Bool-cases,
}
use quant_dominater.Engine.Order.{Side, Order, order_before, order_before_trans, order_before_total}
use quant_dominater.Engine.Search.{IsMonotone, IsFirst, search-IsFirst}
use quant_dominater.Engine.Book.{test_at, insert_at, insert_sorted, IsLadder}

-- The plain insertion: in front of the first order that the new one is before.
unfoldable pub insert_plain : Side → Bool → Order → List Order → List Order
insert_plain side broken o [] = o ∷ []
insert_plain side broken o (x ∷ s) =
    if order_before side broken o x then o ∷ x ∷ s else x ∷ insert_plain side broken o s

module _ (side : Side) (broken : Bool) (o : Order) where
  abbrev goes_before : List Order → ℕ → Bool
  goes_before s = test_at (λ x. order_before side broken o x) s

  later_goes :
      (x : Order) (s : List Order) (j : ℕ)
      → order_before side broken o x ≡ true
      → All (λ y. order_before side broken x y ≡ true) s
      → goes_before s j ≡ true
  later_goes x [] j e h = refl
  later_goes x (y ∷ s) zero e h = order_before_trans side broken o x y e h.0
  later_goes x (y ∷ s) (suc j) e h = later_goes x s j e h.1

  goes_before_mono :
      (s : List Order) → IsLadder side broken s → IsMonotone (length s) (goes_before s)
  goes_before_mono [] h i j ij jn e = absurd (omega arith)
  goes_before_mono (x ∷ s) h zero zero ij jn e = e
  goes_before_mono (x ∷ s) h zero (suc j) ij jn e = later_goes x s j e h.0
  goes_before_mono (x ∷ s) h (suc i) zero ij jn e = absurd (omega arith)
  goes_before_mono (x ∷ s) h (suc i) (suc j) ij jn e =
      goes_before_mono s h.1 i j (omega arith) (omega arith) e

  insert_at-plain :
      (s : List Order) (i : ℕ)
      → IsFirst (length s) (goes_before s) i
      → insert_at s i o ≡ insert_plain side broken o s
  unfolding insert_plain
  insert_at-plain [] zero f = refl
  insert_at-plain [] (suc i) f = absurd (omega (arith, f.within))
  insert_at-plain (x ∷ s) zero f = rw (f.above 0 (omega arith) (omega arith))
  insert_at-plain (x ∷ s) (suc i) f = rw (f.below 0 (omega arith)) (
      ap (λ l. x ∷ l)
        (insert_at-plain s i (record {
          within = omega (arith, f.within);
          below = λ k p. f.below (suc k) (omega arith);
          above = λ k p q. f.above (suc k) (omega arith) (omega arith);
        })))

  -- On a ladder `insertSorted` is the plain insertion: the binary search changes nothing.
  pub insert_sorted-plain :
      (s : List Order)
      → IsLadder side broken s
      → insert_sorted side broken o s ≡ insert_plain side broken o s
  unfolding insert_sorted
  insert_sorted-plain s h =
      insert_at-plain s _ (search-IsFirst (length s) (goes_before s) (goes_before_mono s h))

  module _ (P : Order → Type 0) (po : P o) where
    pub All-insert_plain : (s : List Order) → All P s → All P (insert_plain side broken o s)
    unfolding insert_plain
    All-insert_plain [] h = (po, tt)
    All-insert_plain (x ∷ s) h = elim (Bool-cases (order_before side broken o x)) [
      | inl e ↦ rw (e, insert_plain) (po, h)
      | inr e ↦ rw (e, insert_plain) (h.0, All-insert_plain s h.1)
    ]

  before-All :
      (x : Order) (s : List Order)
      → order_before side broken o x ≡ true
      → All (λ y. order_before side broken x y ≡ true) s
      → All (λ y. order_before side broken o y ≡ true) s
  before-All x [] e h = tt
  before-All x (y ∷ s) e h = (order_before_trans side broken o x y e h.0, before-All x s e h.1)

  -- A new order, inserted after all that rest, leaves a ladder.
  pub insert_plain-IsLadder :
      (s : List Order)
      → All (λ x. x.insert_seq < o.insert_seq) s
      → IsLadder side broken s
      → IsLadder side broken (insert_plain side broken o s)
  unfolding insert_plain
  insert_plain-IsLadder [] n h = (tt, tt)
  insert_plain-IsLadder (x ∷ s) n h = elim (Bool-cases (order_before side broken o x)) [
    | inl e ↦ rw (e, insert_plain) ((e, before-All x s e h.0), h)
    | inr e ↦
        rw (e, insert_plain)
          (
            All-insert_plain (λ y. order_before side broken x y ≡ true)
                (order_before_total side broken o x e n.0) s h.0,
            insert_plain-IsLadder s n.1 h.1,
          )
  ]

  pub length-insert_plain :
      (s : List Order) → length (insert_plain side broken o s) ≡ suc (length s)
  unfolding insert_plain
  length-insert_plain [] = refl
  length-insert_plain (x ∷ s) = elim (Bool-cases (order_before side broken o x)) [
    | inl e ↦ rw (e, insert_plain)
    | inr e ↦ rw (e, insert_plain) (ap suc (length-insert_plain s))
  ]
