-- ===== src/Engine/Shard.antt =====
-- examples/stub-engine/disruptor.go: `matchBuy` and `matchSell` of the disruptor.
use quant_dominater.Base.{
  ℕ, zero, suc, ◌-◌, Bool, true, false, not, ◌&&◌, List, [], ◌∷◌, ◌++◌, length, ltb, ◌==◌,
  if◌then◌else◌,
}
use quant_dominater.Base.Int.{ltb_ℤ}
use quant_dominater.Engine.Order.{Side, buy, sell, Order}
use quant_dominater.Engine.Match.{
  FillDelivery, add_seq, unique_clients, min_qty, index_delete, Matching,
}

-- The body of the loop of `matchBuy`
unfoldable pub trade_buy : Matching → Order → List Order → Matching
trade_buy m resting rest =
    let qty = min_qty m.active.qty resting.qty in
    let seq = add_seq m.others m.seq in
    let left = resting.qty - qty in
    let delivery : FillDelivery = record {
      fill = record {
        symbol = resting.symbol;
        buy_order_id = m.active.id;
        sell_order_id = resting.id;
        price = resting.price;
        qty = qty;
        engine_seq = seq;
      };
      recipients = unique_clients m.active.owner resting.owner;
    } in
    record {
      active = record m.active { qty = m.active.qty - qty };
      queue = if left == 0 then rest else record resting { qty = left } ∷ rest;
      deliveries = m.deliveries ++ (delivery ∷ []);
      seq = seq;
      others = m.others;
      index = if left == 0 then index_delete resting.id m.index else m.index;
    }

abbrev pub round_buy : (Matching → Matching) → Bool → Matching → List Order → Matching
round_buy next market m [] = m
round_buy next market m (resting ∷ rest) =
    elim (ltb 0 m.active.qty && not (not market && ltb_ℤ m.active.price resting.price)) [
      | true ↦ next (trade_buy m resting rest)
      | false ↦ m
    ]

unfoldable pub loop_buy : ℕ → Bool → Matching → Matching
loop_buy zero market m = m
loop_buy (suc fuel) market m = round_buy (λ m'. loop_buy fuel market m') market m m.queue

-- The body of the loop of `matchSell`
unfoldable pub trade_sell : Matching → Order → List Order → Matching
trade_sell m resting rest =
    let qty = min_qty m.active.qty resting.qty in
    let seq = add_seq m.others m.seq in
    let left = resting.qty - qty in
    let delivery : FillDelivery = record {
      fill = record {
        symbol = resting.symbol;
        buy_order_id = resting.id;
        sell_order_id = m.active.id;
        price = resting.price;
        qty = qty;
        engine_seq = seq;
      };
      recipients = unique_clients m.active.owner resting.owner;
    } in
    record {
      active = record m.active { qty = m.active.qty - qty };
      queue = if left == 0 then rest else record resting { qty = left } ∷ rest;
      deliveries = m.deliveries ++ (delivery ∷ []);
      seq = seq;
      others = m.others;
      index = if left == 0 then index_delete resting.id m.index else m.index;
    }

abbrev pub round_sell : (Matching → Matching) → Bool → Matching → List Order → Matching
round_sell next market m [] = m
round_sell next market m (resting ∷ rest) =
    elim (ltb 0 m.active.qty && not (not market && ltb_ℤ resting.price m.active.price)) [
      | true ↦ next (trade_sell m resting rest)
      | false ↦ m
    ]

unfoldable pub loop_sell : ℕ → Bool → Matching → Matching
loop_sell zero market m = m
loop_sell (suc fuel) market m = round_sell (λ m'. loop_sell fuel market m') market m m.queue

-- `matchBuy` and `matchSell`: a round ends the active order or the head of the queue.
unfoldable pub match_shard : Side → Bool → Matching → Matching
match_shard buy market m = loop_buy (suc (length m.queue)) market m
match_shard sell market m = loop_sell (suc (length m.queue)) market m
