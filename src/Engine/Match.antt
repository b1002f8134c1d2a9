-- ===== src/Engine/Match.antt =====
-- examples/stub-engine/main.go: `matchBuy`, `matchSell`, `uniqueClients` and `nextSeq`. The two
-- matching functions differ in the test of the prices and in which order is the buyer's.
use quant_dominater.Base.{
  ℕ, zero, suc, ◌+◌, ◌-◌, ◌%◌, ◌^◌, String, Bool, true, false, not, ◌&&◌, Option, none, some, List,
  [], ◌∷◌, ◌++◌, str_eq, length, ltb, ◌==◌, if◌then◌else◌,
}
use quant_dominater.Base.Int.{ℤ, ltb_ℤ}
use quant_dominater.Engine.Order.{Side, buy, sell, Client, Order}

pub record Fill : Type 0 where
  pub symbol : String
  pub buy_order_id : String
  pub sell_order_id : String
  pub price : ℤ
  pub qty : ℕ
  pub engine_seq : ℕ

pub record FillDelivery : Type 0 where
  pub fill : Fill
  pub recipients : List Client

-- `book.insertSeq++`, a uint64, under the book's lock
abbrev pub next_seq : ℕ → ℕ
next_seq seq = (seq + 1) % 2 ^ 64

-- `e.engineSeq.Add(1)`, a uint64 that requests for other symbols and refused ones count up at any time:
-- `others` says how often they do so behind each number.
abbrev pub add_seq : (ℕ → ℕ) → ℕ → ℕ
add_seq others seq = (seq + others seq + 1) % 2 ^ 64

-- `uniqueClients(a, b)`: the function's other cases are never reached.
unfoldable pub unique_clients : Option Client → Option Client → List Client
unique_clients none none = []
unique_clients none (some b) = b ∷ []
unique_clients (some a) none = a ∷ []
unique_clients (some a) (some b) = if a == b then a ∷ [] else a ∷ b ∷ []

-- `minInt64`
abbrev pub min_qty : ℕ → ℕ → ℕ
min_qty a b = if ltb a b then a else b

-- `e.index`: order id to the order that was stored under it last
abbrev pub Index : Type 0
Index = List (String × Order)

-- `e.index.Load`
unfoldable pub index_load : String → Index → Option Order
index_load id [] = none
index_load id ((k, o) ∷ index) = if str_eq k id then some o else index_load id index

-- `e.index.Delete`
unfoldable pub index_delete : String → Index → Index
index_delete id [] = []
index_delete id ((k, o) ∷ index) =
    if str_eq k id then index_delete id index else (k, o) ∷ index_delete id index

-- `e.index.Store`
unfoldable pub index_store : String → Order → Index → Index
unfolding index_delete
index_store id o index = (id, o) ∷ index_delete id index

-- What the loop reads and writes: the active order, the other side of the book, the fills so far,
-- the engine's sequence number and its index.
pub record Matching : Type 0 where
  pub active : Order
  pub queue : List Order
  pub deliveries : List FillDelivery
  pub seq : ℕ
  pub others : ℕ → ℕ
  pub index : Index

-- `!market && active.Price < resting.Price`, or `>` where the active order sells
abbrev pub out_of_reach : Side → Bool → ℤ → ℤ → Bool
out_of_reach buy market active resting = not market && ltb_ℤ active resting
out_of_reach sell market active resting = not market && ltb_ℤ resting active

-- The test of the loop and of its `break`, at the head of the queue.
abbrev pub can_trade : Side → Bool → Order → List Order → Bool
can_trade side market active [] = false
can_trade side market active (resting ∷ rest) =
    ltb 0 active.qty && not (out_of_reach side market active.price resting.price)

-- The order that buys, and the one that sells.
abbrev pub buyer : Side → Order → Order → Order
buyer buy active resting = active
buyer sell active resting = resting

abbrev pub seller : Side → Order → Order → Order
seller buy active resting = resting
seller sell active resting = active

abbrev pub fill_of : Side → Order → Order → ℕ → ℕ → Fill
fill_of side active resting qty seq = record {
  symbol = resting.symbol;
  buy_order_id = (buyer side active resting).id;
  sell_order_id = (seller side active resting).id;
  price = resting.price;
  qty = qty;
  engine_seq = seq;
}

-- The body of the loop.
unfoldable pub trade : Side → Matching → Order → List Order → Matching
trade side m resting rest =
    let qty = min_qty m.active.qty resting.qty in
    let seq = add_seq m.others m.seq in
    let left = resting.qty - qty in
    let filled = left == 0 in
    record {
      active = record m.active { qty = m.active.qty - qty };
      queue = if filled then rest else record resting { qty = left } ∷ rest;
      deliveries =
          m.deliveries
          ++ (record {
            fill = fill_of side m.active resting qty seq;
            recipients = unique_clients m.active.owner resting.owner;
          }
              ∷ []);
      seq = seq;
      others = m.others;
      index = if filled then index_delete resting.id m.index else m.index;
    }

-- One round: the test, the `break`, and the body with the rounds that follow.
abbrev pub match_round : (Matching → Matching) → Side → Bool → Matching → List Order → Matching
match_round next side market m [] = m
match_round next side market m (resting ∷ rest) =
    elim (can_trade side market m.active (resting ∷ rest)) [
      | true ↦ next (trade side m resting rest)
      | false ↦ m
    ]

-- The loop, on fuel.
unfoldable pub match_loop : ℕ → Side → Bool → Matching → Matching
match_loop zero side market m = m
match_loop (suc fuel) side market m =
    match_round (λ m'. match_loop fuel side market m') side market m m.queue

-- `matchBuy` and `matchSell`: a round ends the active order or the head of the queue.
unfoldable pub match_side : Side → Bool → Matching → Matching
unfolding match_loop trade
match_side side market m = match_loop (suc (length m.queue)) side market m
