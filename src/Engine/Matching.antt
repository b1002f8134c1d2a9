-- ===== src/Engine/Matching.antt =====
-- What `matchBuy` and `matchSell` of examples/stub-engine/main.go do to the orders.
use quant_dominater.Base.{
  ℕ, zero, suc, ◌+◌, ◌-◌, ◌<◌, Bool, true, false, not, ◌&&◌, List, [], ◌∷◌, ◌++◌, ◌≡◌, ◌⊎◌, inl,
  inr, refl, ltb, length, All, All-append, arith, Bool-cases, ◌==◌, sym, ap, subst, ◌∙◌,
}
use quant_dominater.Engine.Order.{Side, buy, sell, Order, order_before}
use quant_dominater.Engine.Book.{IsLadder}
use quant_dominater.Engine.Match.{
  FillDelivery, Matching, out_of_reach, can_trade, min_qty, trade, match_round, match_loop,
  match_side,
}

abbrev pub total : List Order → ℕ
total [] = 0
total (o ∷ os) = o.qty + total os

abbrev pub filled : List FillDelivery → ℕ
filled [] = 0
filled (d ∷ ds) = d.fill.qty + filled ds

filled-append : (ds es : List FillDelivery) → filled (ds ++ es) ≡ filled ds + filled es
filled-append [] es = omega arith
filled-append (d ∷ ds) es = omega (arith, filled-append ds es)

abbrev pub IsPositive : Order → Type 0
IsPositive o = 0 < o.qty

module _ (side : Side) (market : Bool) (P : Matching → Type 0)
    (step : (m : Matching) (resting : Order) (rest : List Order)
      → m.queue ≡ resting ∷ rest
      → can_trade side market m.active (resting ∷ rest) ≡ true
      → P m
      → P (trade side m resting rest)) where
  round_inv :
      (next : Matching → Matching) (m : Matching) (q : List Order)
      → m.queue ≡ q
      → ((m' : Matching) → P m' → P (next m'))
      → P m
      → P (match_round next side market m q)
  round_inv next m [] e h p = p
  round_inv next m (r ∷ rest) e h p =
      (elim (can_trade side market m.active (r ∷ rest))
          as (λ b.
            can_trade side market m.active (r ∷ rest) ≡ b
            → P (elim b [ true ↦ next (trade side m r rest) | false ↦ m ])) [
              | true ↦ λ t. h _ (step m r rest e t p)
              | false ↦ λ t. p
            ])
        refl

  -- What each round keeps the loop keeps.
  pub match_loop_inv : (fuel : ℕ) (m : Matching) → P m → P (match_loop fuel side market m)
  unfolding match_loop
  match_loop_inv zero m p = p
  match_loop_inv (suc fuel) m p =
      round_inv (λ m'. match_loop fuel side market m') m m.queue refl
        (λ m' p'. match_loop_inv fuel m' p') p

module _ (side : Side) (m : Matching) (resting : Order) (rest : List Order) where
  filled-trade :
      filled (trade side m resting rest).deliveries
      ≡ filled m.deliveries + min_qty m.active.qty resting.qty
  unfolding trade
  filled-trade = omega (arith, filled-append m.deliveries _)

  -- A round moves the same amount from both orders into a fill, and uses one of them up.
  pub trade_amounts :
      0 < m.active.qty
      → 0 < resting.qty
      → let m' = trade side m resting rest in
        (m'.active.qty + filled m'.deliveries ≡ m.active.qty + filled m.deliveries)
        × (total m'.queue + filled m'.deliveries ≡ resting.qty + total rest + filled m.deliveries)
        × ((m'.active.qty ≡ 0) ⊎ (m'.queue ≡ rest))
        × (m'.active ≡ record m.active { qty = m'.active.qty })
  unfolding trade
  trade_amounts a r =
      let f = filled-trade in (ground (arith, f), ground (arith, f), ground arith, refl)

  -- The queue keeps what does not speak of quantities; those that are left are positive.
  trade_queue :
      (P : Order → Type 0)
      → ((q : ℕ) → P resting → P (record resting { qty = q }))
      → All P (resting ∷ rest)
      → All P (trade side m resting rest).queue
  unfolding trade
  trade_queue P keeps h = elim (Bool-cases (resting.qty - min_qty m.active.qty resting.qty == 0)) [
    | inl e ↦ rw e h.1
    | inr e ↦ rw e (keeps _ h.0, h.1)
  ]

  pub trade-IsPositive :
      All IsPositive (resting ∷ rest) → All IsPositive (trade side m resting rest).queue
  unfolding trade
  trade-IsPositive h = elim (Bool-cases (resting.qty - min_qty m.active.qty resting.qty == 0)) [
    | inl e ↦ rw e h.1
    | inr e ↦ rw e (ground arith, h.1)
  ]

abbrev pub opposite : Side → Side
opposite buy = sell
opposite sell = buy

trade-IsLadder :
    (side : Side) (broken : Bool) (m : Matching) (resting : Order) (rest : List Order)
    → IsLadder (opposite side) broken (resting ∷ rest)
    → IsLadder (opposite side) broken (trade side m resting rest).queue
unfolding trade order_before
trade-IsLadder side broken m resting rest h =
    elim (Bool-cases (resting.qty - min_qty m.active.qty resting.qty == 0)) [
      | inl e ↦ rw e h.1
      | inr e ↦ rw e h
    ]

-- A fill is of a positive amount at a price that the active order accepts.
abbrev pub FillOk : Side → Bool → Order → FillDelivery → Type 0
FillOk side market active d =
    (0 < d.fill.qty) × (out_of_reach side market active.price d.fill.price ≡ false)

pub can_trade_parts :
    (side : Side) (market : Bool) (active resting : Order) (rest : List Order)
    → can_trade side market active (resting ∷ rest) ≡ true
    → (0 < active.qty) × (out_of_reach side market active.price resting.price ≡ false)
can_trade_parts side market active resting rest h =
    elim (Bool-cases (out_of_reach side market active.price resting.price)) [
      | inl e ↦ absurd (and_not (ltb 0 active.qty) _ h e)
      | inr e ↦ (pos_of_and active.qty _ h, e)
    ]
  where
    and_not : (a b : Bool) → (a && not b) ≡ true → b ≡ true → ⊥
    and_not a b p q = ground arith

    pos_of_and : (n : ℕ) (b : Bool) → (ltb 0 n && b) ≡ true → 0 < n
    pos_of_and n b p = ground arith

trade-FillOk :
    (side : Side) (market : Bool) (a : Order) (m : Matching) (resting : Order) (rest : List Order)
    → 0 < m.active.qty
    → 0 < resting.qty
    → out_of_reach side market a.price resting.price ≡ false
    → All (FillOk side market a) m.deliveries
    → All (FillOk side market a) (trade side m resting rest).deliveries
unfolding trade
trade-FillOk side market a m resting rest p q r h =
    All-append (FillOk side market a) m.deliveries _ h ((ground arith, r), tt)

module _ (side : Side) (market broken : Bool) (P : Order → Type 0)
    (keeps : (o : Order) (q : ℕ) → P o → P (record o { qty = q })) (m0 : Matching) where
  -- The loop has come from `m0` to `m`.
  pub record Matched (m : Matching) : Type 0 where
    pub active_left : m.active.qty + filled m.deliveries ≡ m0.active.qty + filled m0.deliveries
    pub queue_left : total m.queue + filled m.deliveries ≡ total m0.queue + filled m0.deliveries
    pub same_active : m.active ≡ record m0.active { qty = m.active.qty }
    pub positive : All IsPositive m.queue
    pub ladder : IsLadder (opposite side) broken m.queue
    pub kept : All P m.queue
    pub fills_ok : All (FillOk side market m0.active) m.deliveries

  trade-Matched :
      (m : Matching) (resting : Order) (rest : List Order)
      → m.queue ≡ resting ∷ rest
      → can_trade side market m.active (resting ∷ rest) ≡ true
      → Matched m
      → Matched (trade side m resting rest)
  trade-Matched m resting rest e t h =
      let pos = subst (All IsPositive) e h.positive in
      let parts = can_trade_parts side market m.active resting rest t in
      let (a, q, u, same) = trade_amounts side m resting rest parts.0 pos.0 in
      record {
        active_left = a ∙ h.active_left;
        queue_left = q ∙ (ap (λ l. total l + filled m.deliveries) (sym e) ∙ h.queue_left);
        same_active =
            same
            ∙ ap (λ (o : Order). record o { qty = (trade side m resting rest).active.qty })
                h.same_active;
        positive = trade-IsPositive side m resting rest pos;
        ladder =
            trade-IsLadder side broken m resting rest
              (subst (IsLadder (opposite side) broken) e h.ladder);
        kept = trade_queue side m resting rest P (keeps resting) (subst (All P) e h.kept);
        fills_ok =
            trade-FillOk side market m0.active m resting rest parts.0 pos.0
              (subst (λ (o : Order). out_of_reach side market o.price resting.price ≡ false)
                h.same_active parts.1)
              h.fills_ok;
      }

  -- Where the other side is positive and in order and the fills so far are of this order, quantity is
  -- conserved on both sides, every fill is positive and within the active order's price,
  -- and what rests stays positive and in order.
  pub match_side-Matched :
      All IsPositive m0.queue
      → IsLadder (opposite side) broken m0.queue
      → All P m0.queue
      → All (FillOk side market m0.active) m0.deliveries
      → Matched (match_side side market m0)
  unfolding match_side
  match_side-Matched pos lad k f =
      match_loop_inv side market Matched trade-Matched (suc (length m0.queue)) m0 (record {
        active_left = refl;
        queue_left = refl;
        same_active = refl;
        positive = pos;
        ladder = lad;
        kept = k;
        fills_ok = f;
      })
