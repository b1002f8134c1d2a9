-- ===== src/Engine/Resting.antt =====
-- examples/stub-engine/main.go: an order that rests can be cancelled.
use quant_dominater.Base.{
  ℕ, ◌<◌, Bool, true, false, some, List, [], ◌∷◌, ◌≡◌, inl, inr, refl, sym, subst, ◌∙◌, All, arith,
  Bool-cases, ◌==◌,
}
use quant_dominater.Engine.Order.{Side, Order, order_before}
use quant_dominater.Engine.Book.{insert_sorted, remove_order, IsLadder}
use quant_dominater.Engine.Ladder.{
  insert_plain, insert_sorted-plain, insert_plain-IsLadder, All-insert_plain,
}
use quant_dominater.Engine.Removal.{remove_plain, SameKey, remove_order-plain}
use quant_dominater.Engine.Sides.{All-map}

-- `x` is another record than the one at `addr`.
abbrev pub Elsewhere : ℕ → Order → Type 0
Elsewhere addr x = (x.addr == addr) ≡ false

addr_self : (o : Order) → (o.addr == o.addr) ≡ true
addr_self o = ground arith

module _ (side : Side) (broken : Bool) (o : Order) where
  remove_plain-insert_plain :
      (s : List Order)
      → All (Elsewhere o.addr) s
      → remove_plain o (insert_plain side broken o s) ≡ some s
  unfolding insert_plain remove_plain
  remove_plain-insert_plain [] h = rw (addr_self o, remove_plain)
  remove_plain-insert_plain (x ∷ s) h = elim (Bool-cases (order_before side broken o x)) [
    | inl e ↦ rw (e, insert_plain) (rw (addr_self o, remove_plain))
    | inr e ↦ rw (e, insert_plain) (rw (h.0, remove_plain) (rw (remove_plain-insert_plain s h.1)))
  ]

  -- `removeOrder` undoes `insertSorted`: a new order, put into a side that is in order, is found again
  -- at once, and taking it out leaves the side as it was.
  pub remove_order-insert_sorted :
      (s : List Order)
      → o.side ≡ side
      → IsLadder side broken s
      → All (λ x. x.insert_seq < o.insert_seq) s
      → All (Elsewhere o.addr) s
      → remove_order broken o (insert_sorted side broken o s) ≡ some s
  remove_order-insert_sorted s e lad new fresh = rw (insert_sorted-plain side broken o s lad) (
      remove_order-plain broken o (insert_plain side broken o s)
        (subst (λ (d : Side). IsLadder d broken (insert_plain side broken o s)) (sym e)
          (insert_plain-IsLadder side broken o s new lad))
        (All-insert_plain side broken o (SameKey o) (λ a. (refl, refl, refl)) s
          (All-map _ _ s (λ x a b. absurd cc) fresh))
      ∙ remove_plain-insert_plain s fresh)
