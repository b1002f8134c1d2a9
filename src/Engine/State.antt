-- ===== src/Engine/State.antt =====
-- examples/stub-engine/main.go: the engine's messages and state, and `bookFor`.
use quant_dominater.Base.{ℕ, String, Bool, List, [], ◌∷◌, str_eq, if◌then◌else◌}
use quant_dominater.Base.Int.{ℤ}
use quant_dominater.Engine.Order.{Side, buy, sell, Order}
use quant_dominater.Engine.Match.{Index}

pub record NewOrder : Type 0 where
  pub run_id : String
  pub client_order_id : String
  pub symbol : String
  pub side : String
  pub price : ℤ
  pub qty : ℤ
  pub ts_ns : ℕ
  pub order_type : String

pub record CancelOrder : Type 0 where
  pub run_id : String
  pub client_order_id : String
  pub orig_client_order_id : String
  pub ts_ns : ℕ

pub record Inbound : Type 0 where
  pub type_ : String
  pub run_id : String
  pub client_order_id : String
  pub symbol : String
  pub side : String
  pub price : ℤ
  pub qty : ℤ
  pub ts_ns : ℕ
  pub order_type : String
  pub orig_client_order_id : String

-- `asNewOrder`; the type is the constructor's own.
unfoldable pub as_new_order : Inbound → NewOrder
as_new_order m = record {
  run_id = m.run_id;
  client_order_id = m.client_order_id;
  symbol = m.symbol;
  side = m.side;
  price = m.price;
  qty = m.qty;
  ts_ns = m.ts_ns;
  order_type = m.order_type;
}

-- `asCancel`
unfoldable pub as_cancel : Inbound → CancelOrder
as_cancel m = record {
  run_id = m.run_id;
  client_order_id = m.client_order_id;
  orig_client_order_id = m.orig_client_order_id;
  ts_ns = m.ts_ns;
}

-- The texts that an ack's status takes.
pub data AckStatus : Type 0 where
  accepted rejected canceled not_found : AckStatus

pub record Ack : Type 0 where
  pub client_order_id : String
  pub status : AckStatus
  pub engine_seq : ℕ
  pub ts_ns : ℕ
  pub reason : String

pub record Book : Type 0 where
  pub insert_seq : ℕ
  pub buys : List Order
  pub sells : List Order

abbrev pub Books : Type 0
Books = List (String × Book)

pub record Engine : Type 0 where
  pub seq : ℕ
  pub others : ℕ → ℕ
  pub books : Books
  pub index : Index
  pub mode : String

abbrev pub max_resting_per_symbol : ℕ
max_resting_per_symbol = 100000

abbrev pub max_order_field_len : ℕ
max_order_field_len = 256

-- `e.mode == "broken-price-time-priority"`
abbrev pub is_broken : Engine → Bool
is_broken e = str_eq e.mode "broken-price-time-priority"

abbrev pub or_default : String → String → String
or_default default s = if str_eq s "" then default else s

-- `bookFor` behind its default symbol: a missing book is made empty.
unfoldable pub book_for : String → Books → Book
book_for symbol [] = record { insert_seq = 0; buys = []; sells = [] }
book_for symbol ((k, b) ∷ books) = if str_eq k symbol then b else book_for symbol books

-- What a handler that holds the book's lock leaves in it.
unfoldable pub store_book : String → Book → Books → Books
store_book symbol b [] = (symbol, b) ∷ []
store_book symbol b ((k, c) ∷ books) =
    if str_eq k symbol then (k, b) ∷ books else (k, c) ∷ store_book symbol b books

-- The side on which an order rests, and the one that it matches against.
abbrev pub own_side : Side → Book → List Order
own_side buy b = b.buys
own_side sell b = b.sells

abbrev pub other_side : Side → Book → List Order
other_side buy b = b.sells
other_side sell b = b.buys

abbrev pub with_sides : Side → ℕ → List Order → List Order → Book
with_sides buy insert_seq own other = record { insert_seq = insert_seq; buys = own; sells = other }
with_sides sell insert_seq own other = record { insert_seq = insert_seq; buys = other; sells = own }
