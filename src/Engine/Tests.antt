-- ===== src/Engine/Tests.antt =====
-- Runs of the engine of examples/stub-engine/main.go at concrete inputs.
use quant_dominater.Base.{
  ◌<◌, ap, sym, ℕ, String, false, some, List, [], ◌∷◌, ◌≡◌, refl, length, All, arith, ◌==◌,
}
use quant_dominater.Base.Int.{pos}
use quant_dominater.Engine.Order.{Side, buy, sell, Order}
use quant_dominater.Engine.Search.{search}
use quant_dominater.Engine.Book.{insert_sorted, remove_order}
use quant_dominater.Engine.Ladder.{insert_plain, insert_sorted-plain}
use quant_dominater.Engine.Removal.{remove_plain, remove_order-plain}
use quant_dominater.Engine.Match.{Matching, can_trade, match_side}
use quant_dominater.Engine.Matching.{Matched, filled, match_side-Matched}
use quant_dominater.Engine.Ends.{match_side_ends}
use mathlib.Core.Option
use quant_dominater.Engine.Disruptor.{process_new_shard, process_cancel_shard}
use quant_dominater.Engine.Mirror.{
  process_new_shard-process_new, process_new_shard_too_long, process_cancel_shard-process_cancel,
}
use quant_dominater.Engine.Process.{max_resting_per_symbol, or_default, rejected}
use quant_dominater.Engine.Process.{
  NewOrder, CancelOrder, Engine, accepted, canceled, process_new, process_cancel, own_side,
  book_for,
}
use quant_dominater.Engine.Invariant.{EngineOk}
use quant_dominater.Engine.Served.{
  Request, place, withdraw, new_engine, serve_all, serve_all-EngineOk,
}
use quant_dominater.Engine.Answers.{Answered, process_new-Answered}
use quant_dominater.Engine.Resting.{remove_order-insert_sorted}
use quant_dominater.Engine.Cancel.{process_new-process_cancel}

abbrev same_text : String → String
same_text s = s

abbrev short_text : String → ℕ
short_text s = 3

abbrev order_at : ℕ → Side → ℕ → ℕ → Order
order_at n side price qty = record {
  addr = n;
  id = "o";
  symbol = "X";
  side = side;
  price = pos price;
  qty = qty;
  ts_ns = 7;
  insert_seq = n;
  owner = some 1;
}

abbrev two_sells : List Order
two_sells = order_at 1 sell 100 5 ∷ order_at 2 sell 101 5 ∷ []

abbrev a_buy : Matching
a_buy = record {
  active = order_at 3 buy 100 8;
  queue = two_sells;
  deliveries = [];
  seq = 4;
  others = λ n. 0;
  index = [];
}

abbrev a_new_order : String → String → ℕ → ℕ → NewOrder
a_new_order id side price qty = record {
  run_id = "r";
  client_order_id = id;
  symbol = "X";
  side = side;
  price = pos price;
  qty = pos qty;
  ts_ns = 7;
  order_type = "";
}

abbrev a_cancel : String → CancelOrder
a_cancel id = record { run_id = "r"; client_order_id = "c"; orig_client_order_id = id; ts_ns = 9 }

-- All that the runs below compute.
program : Unit {0}
unfolding quant_dominater.Engine.Order.order_before quant_dominater.Engine.Search.search_loop search
    insert_sorted remove_order quant_dominater.Engine.Match.unique_clients
    quant_dominater.Engine.Match.index_load quant_dominater.Engine.Match.index_delete
    quant_dominater.Engine.Match.index_store quant_dominater.Engine.Match.trade
    quant_dominater.Engine.Match.match_loop match_side book_for
    quant_dominater.Engine.Process.store_book quant_dominater.Engine.Process.reject_residual
    quant_dominater.Engine.Process.settle quant_dominater.Engine.Process.enter process_new
    quant_dominater.Engine.Process.cancel_found quant_dominater.Engine.Process.cancel_loaded
    process_cancel quant_dominater.Engine.Served.serve serve_all
program = tt

insert_sorted-plain_example :
    insert_sorted sell false (order_at 3 sell 100 1) two_sells
    ≡ insert_plain sell false (order_at 3 sell 100 1) two_sells
unfolding program
insert_sorted-plain_example =
    insert_sorted-plain sell false (order_at 3 sell 100 1) two_sells ((refl, tt), (tt, tt))

-- The second sell is cancelled; the record that the index holds is the one that rests.
remove_order_by_address :
    remove_order false (order_at 2 sell 101 5) two_sells
    ≡ remove_plain (order_at 2 sell 101 5) two_sells
unfolding program
remove_order_by_address =
    remove_order-plain false (order_at 2 sell 101 5) two_sells ((refl, tt), (tt, tt))
      ((λ a. absurd cc), ((λ a. (refl, refl, refl)), tt))

remove_order-insert_sorted_example :
    remove_order false
      (order_at 3 sell 100 1)
      (insert_sorted sell false (order_at 3 sell 100 1) two_sells)
    ≡ some two_sells
unfolding program
remove_order-insert_sorted_example =
    remove_order-insert_sorted sell false (order_at 3 sell 100 1) two_sells refl
      ((refl, tt), (tt, tt)) (omega arith, (omega arith, tt)) (refl, (refl, tt))

match_side-Matched_example :
    Matched buy false false (λ o. o.side ≡ sell) (λ o q h. h) a_buy (match_side buy false a_buy)
unfolding program
match_side-Matched_example =
    match_side-Matched buy false false (λ o. o.side ≡ sell) (λ o q h. h) a_buy
      (omega arith, (omega arith, tt)) ((refl, tt), (tt, tt)) (refl, (refl, tt)) tt

match_side_ends_example :
    can_trade buy false (match_side buy false a_buy).active (match_side buy false a_buy).queue
    ≡ false
match_side_ends_example = match_side_ends buy false a_buy (omega arith, (omega arith, tt))

-- A buy of 8 takes the first sell; the second is out of reach, and 3 are left.
a_match :
    let m = match_side buy false a_buy in
    (m.active.qty ≡ 3) × (filled m.deliveries ≡ 5) × (length m.queue ≡ 1)
unfolding program
a_match = (refl, refl, refl)

abbrev requests : List Request
requests =
    place (a_new_order "a" "SELL" 100 5) (some 1) 1 7
    ∷ place (a_new_order "b" "BUY" 100 8) (some 2) 2 8
    ∷ withdraw (a_cancel "a") (some (order_at 1 sell 100 5)) 9
    ∷ []

serve_all-EngineOk_example :
    EngineOk (serve_all same_text short_text requests (new_engine (λ n. 0) ""))
serve_all-EngineOk_example =
    serve_all-EngineOk same_text short_text (λ n. 0) "" requests (omega arith)

-- The engine with one sell of 5 at 100.
abbrev one_sell : Engine
one_sell =
    (process_new same_text short_text (a_new_order "a" "SELL" 100 5) (some 1) 1 7
      (new_engine (λ n. 0) "")).1

one_sell-EngineOk : EngineOk one_sell
unfolding serve_all quant_dominater.Engine.Served.serve
one_sell-EngineOk =
    serve_all-EngineOk same_text short_text (λ n. 0) ""
      (place (a_new_order "a" "SELL" 100 5) (some 1) 1 7 ∷ []) (omega arith)

process_new-Answered_example :
    Answered one_sell.others one_sell.seq 8
      (process_new same_text short_text (a_new_order "b" "BUY" 100 8) (some 2) 2 8 one_sell).0
process_new-Answered_example =
    process_new-Answered same_text short_text (a_new_order "b" "BUY" 100 8) (some 2) 2 8 one_sell
      one_sell-EngineOk

process_new-process_cancel_example :
    (process_cancel
      (a_cancel "b")
      9
      (process_new same_text short_text
        (a_new_order "b" "BUY" 100 8)
        (some 2)
        2
        8
        one_sell).1).0.status
    ≡ canceled
unfolding program
process_new-process_cancel_example =
    process_new-process_cancel same_text short_text (a_new_order "b" "BUY" 100 8) (some 2) 2 8
      one_sell (a_cancel "b") 9 one_sell-EngineOk (omega arith) fresh refl refl refl refl
      (omega arith)
  where
    fresh :
        (s : Side)
        → All (λ (x : Order). (x.addr == 2) ≡ false) (own_side s (book_for "X" one_sell.books))
    fresh buy = tt
    fresh sell = (refl, tt)

small_room : (s : Side) → length (own_side s (book_for "X" one_sell.books)) < max_resting_per_symbol
unfolding program
small_room buy = omega arith
small_room sell = omega arith

process_new_shard-process_new_example :
    process_new_shard same_text short_text (a_new_order "b" "BUY" 100 8) (some 2) 2 8 one_sell
    ≡ process_new same_text short_text (a_new_order "b" "BUY" 100 8) (some 2) 2 8 one_sell
process_new_shard-process_new_example =
    process_new_shard-process_new same_text short_text (a_new_order "b" "BUY" 100 8) (some 2) 2 8
      one_sell refl small_room

abbrev long_text : String → ℕ
long_text s = 300

process_new_shard_too_long_example :
    ((process_new same_text long_text
        (a_new_order "b" "BUY" 100 8)
        (some 2)
        2
        8
        one_sell).0.0.status
      ≡ rejected)
    × ((process_new_shard same_text long_text
          (a_new_order "b" "BUY" 100 8)
          (some 2)
          2
          8
          one_sell).0.0.status
        ≡ accepted)
process_new_shard_too_long_example =
    process_new_shard_too_long same_text long_text buy (a_new_order "b" "BUY" 100 8) (some 2) 2 8
      one_sell refl refl refl

both_engines_cancel :
    (process_cancel_shard "X" (a_cancel "a") 9 one_sell).0
    ≡ (process_cancel (a_cancel "a") 9 one_sell).0
unfolding program
both_engines_cancel =
    process_cancel_shard-process_cancel (a_cancel "a") "X" 9 one_sell
      (λ ord h. ap (λ (o : Order). or_default "DEFAULT" o.symbol) (sym (Option.some_inj.0 h)))
