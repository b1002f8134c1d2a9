-- ===== src/Engine/Ends.antt =====
-- `matchBuy` and `matchSell` of examples/stub-engine/main.go end by their own test.
use quant_dominater.Base.{
  ℕ, zero, suc, ◌<◌, Bool, true, false, List, [], ◌∷◌, ◌≡◌, ◌⊎◌, inl, inr, refl, length, All, arith,
  sym, ap, subst,
}
use quant_dominater.Engine.Order.{Side, Order}
use quant_dominater.Engine.Match.{Matching, can_trade, trade, match_round, match_loop, match_side}
use quant_dominater.Engine.Matching.{IsPositive, can_trade_parts, trade_amounts, trade-IsPositive}

module _ (side : Side) (market : Bool) where
  abbrev Stuck : Matching → Type 0
  Stuck m = can_trade side market m.active m.queue ≡ false

  spent_stuck :
      (active : Order) (q : List Order) → active.qty ≡ 0 → can_trade side market active q ≡ false
  spent_stuck active [] e = refl
  spent_stuck active (r ∷ rest) e = ground arith

  round_ends :
      (fuel : ℕ) (m : Matching) (q : List Order)
      → m.queue ≡ q
      → All IsPositive q
      → ((m' : Matching)
          → All IsPositive m'.queue
          → (length m'.queue < fuel) ⊎ (m'.active.qty ≡ 0)
          → Stuck (match_loop fuel side market m'))
      → (length q < suc fuel) ⊎ (m.active.qty ≡ 0)
      → Stuck (match_round (λ m'. match_loop fuel side market m') side market m q)
  round_ends fuel m [] e pos ih h =
      subst (λ l. can_trade side market m.active l ≡ false) (sym e) refl
  round_ends fuel m (r ∷ rest) e pos ih h =
      (elim (can_trade side market m.active (r ∷ rest))
          as (λ b.
            can_trade side market m.active (r ∷ rest) ≡ b
            → Stuck
                (elim b [ true ↦ match_loop fuel side market (trade side m r rest) | false ↦ m ])) [
                  | false ↦ λ t. subst (λ l. can_trade side market m.active l ≡ false) (sym e) t
                  | true ↦
                      λ t. ih (trade side m r rest) (trade-IsPositive side m r rest pos) (shorter t)
                ])
        refl
    where
      shorter :
          can_trade side market m.active (r ∷ rest) ≡ true
          → (length (trade side m r rest).queue < fuel) ⊎ ((trade side m r rest).active.qty ≡ 0)
      shorter t =
          let parts = can_trade_parts side market m.active r rest t in
          let used = (trade_amounts side m r rest parts.0 pos.0).2 in
          elim used [
            | inl z ↦ inr z
            | inr z ↦ elim h [
              | inl l ↦ inl (omega (arith, ap length z))
              | inr l ↦ absurd (omega (arith, parts.0))
            ]
          ]

  match_loop_ends :
      (fuel : ℕ) (m : Matching)
      → All IsPositive m.queue
      → (length m.queue < fuel) ⊎ (m.active.qty ≡ 0)
      → Stuck (match_loop fuel side market m)
  unfolding match_loop
  match_loop_ends zero m pos (inl h) = absurd (omega arith)
  match_loop_ends zero m pos (inr h) = spent_stuck m.active m.queue h
  match_loop_ends (suc fuel) m pos h =
      round_ends fuel m m.queue refl pos (λ m' p' h'. match_loop_ends fuel m' p' h') h

  -- Where every resting order has a positive quantity, the fuel is enough: the loop ends by its own
  -- test, so the active order is spent, the other side is empty, or its best price is out of reach.
  pub match_side_ends : (m : Matching) → All IsPositive m.queue → Stuck (match_side side market m)
  unfolding match_side
  match_side_ends m pos = match_loop_ends (suc (length m.queue)) m pos (inl (omega arith))
