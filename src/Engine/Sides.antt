-- ===== src/Engine/Sides.antt =====
-- What holds of one side of a book of examples/stub-engine/main.go, and what keeps it.
use quant_dominater.Base.{
  ℕ, zero, suc, ◌-◌, ◌≤◌, ◌<◌, Bool, false, not, Option, none, some, List, [], ◌∷◌, ◌≡◌, inl, inr,
  sym, ap, subst, length, get_elem?, All, arith, Bool-cases, ◌==◌,
}
use quant_dominater.Base.Int.{ℤ, ◌<ℤ◌}
use quant_dominater.Engine.Order.{Side, buy, sell, Order, order_before, order_before-NoWorse}
use quant_dominater.Engine.Search.{search}
use quant_dominater.Engine.Book.{
  test_at, remove_at, remove_found, remove_order, insert_sorted, IsLadder,
}
use quant_dominater.Engine.Ladder.{
  insert_sorted-plain, All-insert_plain, insert_plain-IsLadder, length-insert_plain,
}
use quant_dominater.Engine.Match.{Matching, can_trade, min_qty, trade, match_side}
use quant_dominater.Engine.Matching.{IsPositive, opposite, match_loop_inv}
use quant_dominater.Engine.Process.{max_resting_per_symbol}

pub All-map :
    (P Q : Order → Type 0) (s : List Order) → ((x : Order) → P x → Q x) → All P s → All Q s
All-map P Q [] f h = tt
All-map P Q (x ∷ s) f h = (f x h.0, All-map P Q s f h.1)

pub All-zip : (P Q : Order → Type 0) (s : List Order) → All P s → All Q s → All (λ x. P x × Q x) s
All-zip P Q [] h k = tt
All-zip P Q (x ∷ s) h k = ((h.0, k.0), All-zip P Q s h.1 k.1)

pub All-remove_at : (P : Order → Type 0) (s : List Order) (i : ℕ) → All P s → All P (remove_at s i)
All-remove_at P [] zero h = tt
All-remove_at P [] (suc i) h = tt
All-remove_at P (x ∷ s) zero h = h.1
All-remove_at P (x ∷ s) (suc i) h = (h.0, All-remove_at P s i h.1)

remove_at-IsLadder :
    (side : Side) (broken : Bool) (s : List Order) (i : ℕ)
    → IsLadder side broken s
    → IsLadder side broken (remove_at s i)
remove_at-IsLadder side broken [] zero h = tt
remove_at-IsLadder side broken [] (suc i) h = tt
remove_at-IsLadder side broken (x ∷ s) zero h = h.1
remove_at-IsLadder side broken (x ∷ s) (suc i) h =
    (All-remove_at _ s i h.0, remove_at-IsLadder side broken s i h.1)

length-remove_at : (s : List Order) (i : ℕ) → length (remove_at s i) ≤ length s
length-remove_at [] zero = omega arith
length-remove_at [] (suc i) = omega arith
length-remove_at (x ∷ s) zero = omega arith
length-remove_at (x ∷ s) (suc i) = omega (arith, length-remove_at s i)

-- The price of a resting order, and one on the other side that does not trade with it.
abbrev pub Apart : Side → ℤ → ℤ → Type 0
Apart buy own other = own <ℤ other
Apart sell own other = other <ℤ own

-- No order of one side trades with one of the other.
abbrev pub Uncrossed : Side → List Order → List Order → Type 0
Uncrossed side own other = All (λ x. All (λ y. Apart side y.price x.price) own) other

Apart-flip : (side : Side) (a b : ℤ) → Apart side a b → Apart (opposite side) b a
Apart-flip buy a b h = h
Apart-flip sell a b h = h

Uncrossed-none : (side : Side) (other : List Order) → Uncrossed side [] other
Uncrossed-none side [] = tt
Uncrossed-none side (x ∷ other) = (tt, Uncrossed-none side other)

Uncrossed-cons :
    (side : Side) (y : Order) (own other : List Order)
    → All (λ x. Apart side y.price x.price) other
    → Uncrossed side own other
    → Uncrossed side (y ∷ own) other
Uncrossed-cons side y own other h k = All-zip _ _ other h k

-- The two sides may be named in either order.
pub Uncrossed-flip :
    (side : Side) (own other : List Order)
    → Uncrossed side own other
    → Uncrossed (opposite side) other own
Uncrossed-flip side own [] h = Uncrossed-none (opposite side) own
Uncrossed-flip side own (x ∷ other) h =
    Uncrossed-cons (opposite side) x other own
      (All-map _ _ own (λ y p. Apart-flip side y.price x.price p) h.0)
      (Uncrossed-flip side own other h.1)

module _ (side : Side) (broken : Bool) where
  -- A side of a book whose orders have the insertion numbers up to `n`.
  pub record SideOk (n : ℕ) (s : List Order) : Type 0 where
    pub positive : All IsPositive s
    pub ladder : IsLadder side broken s
    pub on_side : All (λ o. o.side ≡ side) s
    pub older : All (λ o. o.insert_seq ≤ n) s
    pub few : length s ≤ max_resting_per_symbol

  pub SideOk-later : (n k : ℕ) (s : List Order) → n ≤ k → SideOk n s → SideOk k s
  SideOk-later n k s h ok = record {
    positive = ok.positive;
    ladder = ok.ladder;
    on_side = ok.on_side;
    older = All-map _ _ s (λ o p. omega arith) ok.older;
    few = ok.few;
  }

  pub insert_sorted-SideOk :
      (n : ℕ) (o : Order) (s : List Order)
      → o.side ≡ side
      → o.insert_seq ≡ suc n
      → IsPositive o
      → length s < max_resting_per_symbol
      → SideOk n s
      → SideOk (suc n) (insert_sorted side broken o s)
  insert_sorted-SideOk n o s a b c few ok =
      subst (SideOk (suc n)) (sym (insert_sorted-plain side broken o s ok.ladder)) (record {
        positive = All-insert_plain side broken o _ c s ok.positive;
        ladder =
            insert_plain-IsLadder side broken o s (All-map _ _ s (λ x p. omega (arith, b)) ok.older)
              ok.ladder;
        on_side = All-insert_plain side broken o _ a s ok.on_side;
        older =
            All-insert_plain side broken o _ (omega (arith, b)) s
              (SideOk-later n (suc n) s (omega arith) ok).older;
        few = omega (arith, length-insert_plain side broken o s);
      })

  pub remove_at-SideOk : (n : ℕ) (s : List Order) (i : ℕ) → SideOk n s → SideOk n (remove_at s i)
  remove_at-SideOk n s i ok = record {
    positive = All-remove_at _ s i ok.positive;
    ladder = remove_at-IsLadder side broken s i ok.ladder;
    on_side = All-remove_at _ s i ok.on_side;
    older = All-remove_at _ s i ok.older;
    few = omega (arith, length-remove_at s i, ok.few);
  }

  pub insert_sorted-Uncrossed :
      (o : Order) (own other : List Order)
      → IsLadder side broken own
      → All (λ x. Apart side o.price x.price) other
      → Uncrossed side own other
      → Uncrossed side (insert_sorted side broken o own) other
  insert_sorted-Uncrossed o own other lad h k =
      subst (λ (l : List Order). Uncrossed side l other)
        (sym (insert_sorted-plain side broken o own lad))
        (All-map _ _ other (λ x p. All-insert_plain side broken o _ p.0 own p.1)
          (All-zip _ _ other h k))

-- What `removeOrder` leaves is the side without one of its places.
pub remove_order-remove_at :
    (broken : Bool) (ord : Order) (s t : List Order)
    → remove_order broken ord s ≡ some t
    → (i : ℕ) × (remove_at s i ≡ t)
unfolding remove_order
remove_order-remove_at broken ord s t h =
    let i = search (length s) (test_at (λ x. not (order_before ord.side broken x ord)) s) in
    found i (get_elem? s i) h
  where
    found :
        (i : ℕ) (o : Option Order) → remove_found ord s i o ≡ some t → (j : ℕ) × (remove_at s j ≡ t)
    found i none h = absurd cc
    found i (some x) h = elim (Bool-cases (x.addr == ord.addr)) [
      | inl e ↦ (i, cc)
      | inr e ↦ absurd cc
    ]

length-trade :
    (side : Side) (m : Matching) (resting : Order) (rest : List Order)
    → length (trade side m resting rest).queue ≤ length (resting ∷ rest)
unfolding trade
length-trade side m resting rest =
    elim (Bool-cases (resting.qty - min_qty m.active.qty resting.qty == 0)) [
      | inl e ↦ rw e (omega arith)
      | inr e ↦ rw e (omega arith)
    ]

-- The loop does not make the other side longer.
pub length-match_side :
    (side : Side) (market : Bool) (m : Matching)
    → length (match_side side market m).queue ≤ length m.queue
unfolding match_side
length-match_side side market m =
    match_loop_inv side market (λ m'. length m'.queue ≤ length m.queue)
      (λ m' resting rest e t h. omega (arith, ap length e, length-trade side m' resting rest))
      (suc (length m.queue)) m (omega arith)

-- Where the loop has stopped and the active order is not spent, it is apart from all that rest.
pub stopped-Apart :
    (side : Side) (broken : Bool) (active : Order) (q : List Order)
    → can_trade side false active q ≡ false
    → 0 < active.qty
    → IsLadder (opposite side) broken q
    → All (λ x. Apart side active.price x.price) q
stopped-Apart side broken active [] h p l = tt
stopped-Apart buy broken active (x ∷ q) h p l = (
  ground arith,
  All-map _ _ q (λ y r. let w = order_before-NoWorse sell broken x y r in ground arith) l.0,
)
stopped-Apart sell broken active (x ∷ q) h p l = (
  ground arith,
  All-map _ _ q (λ y r. let w = order_before-NoWorse buy broken x y r in ground arith) l.0,
)
