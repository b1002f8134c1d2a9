-- ===== src/Engine/Process.antt =====
-- examples/stub-engine/main.go: `ProcessNew`, `ProcessCancel`, `RejectAck` and `rejectResidual`.
use quant_dominater.Base.{
  ℕ, String, Bool, true, false, not, ◌&&◌, ◌||◌, Option, none, some, List, [], ◌∷◌, str_eq, length,
  ltb, if◌then◌else◌,
}
use quant_dominater.Base.Int.{pos, pos_part, leb_ℤ}
use quant_dominater.Engine.Order.{Side, buy, sell, Client, Order}
use quant_dominater.Engine.Book.{insert_sorted, remove_order}
use quant_dominater.Engine.Match.{
  FillDelivery, next_seq, add_seq, index_load, index_delete, index_store, Matching, match_side,
}
pub use quant_dominater.Engine.State.{
  NewOrder, CancelOrder, Inbound, AckStatus, Ack, Book, Books, Engine, max_resting_per_symbol,
  max_order_field_len, is_broken, or_default, own_side, other_side, with_sides, accepted, rejected,
  canceled, not_found,
}
unfoldable pub use quant_dominater.Engine.State.{as_new_order, as_cancel, book_for, store_book}

-- `RejectAck`
unfoldable pub reject_ack : String → ℕ → Engine → Ack × Engine
reject_ack reason now e =
    let seq = add_seq e.others e.seq in
    (
      record {
        client_order_id = "";
        status = rejected;
        engine_seq = seq;
        ts_ns = now;
        reason = reason;
      },
      record e { seq = seq },
    )

-- `rejectResidual`
unfoldable pub reject_residual : Ack → List FillDelivery → Ack
reject_residual ack [] = record ack { status = rejected; reason = "book_full" }
reject_residual ack (d ∷ ds) = record ack { reason = "residual_dropped" }

abbrev pub Reply : Type 0
Reply = Ack × List FillDelivery

-- `ProcessNew` where it refuses an order before it looks at a book.
abbrev pub refuse : String → NewOrder → ℕ → Engine → Reply × Engine
refuse reason msg now e =
    let seq = add_seq e.others e.seq in
    (
      (
        record {
          client_order_id = msg.client_order_id;
          status = rejected;
          engine_seq = seq;
          ts_ns = now;
          reason = reason;
        },
        [],
      ),
      record e { seq = seq },
    )

abbrev pub side_of : String → Option Side
side_of s = if str_eq s "BUY" then some buy else if str_eq s "SELL" then some sell else none

-- `active := &Order{...}`: the quantity has been tested to be positive.
abbrev pub active_order : Side → String → NewOrder → ℕ → ℕ → Option Client → Order
active_order side symbol msg addr insert_seq owner = record {
  addr = addr;
  id = msg.client_order_id;
  symbol = symbol;
  side = side;
  price = msg.price;
  qty = pos_part msg.qty;
  ts_ns = msg.ts_ns;
  insert_seq = insert_seq;
  owner = owner;
}

-- `ProcessNew` from where the active order has matched: what is left rests, or is dropped.
unfoldable pub settle :
    Side → Bool → String → Ack → ℕ → List Order → Matching → Engine → Reply × Engine
settle side market symbol ack insert_seq own m e =
    let rests = ltb 0 m.active.qty && not market in
    let fits = ltb (length own) max_resting_per_symbol in
    (
      (if rests && not fits then reject_residual ack m.deliveries else ack, m.deliveries),
      record {
        seq = m.seq;
        others = e.others;
        books =
            store_book symbol
              (with_sides side insert_seq
                (if rests && fits then insert_sorted side (is_broken e) m.active own else own)
                m.queue)
              e.books;
        index = if rests && fits then index_store m.active.id m.active m.index else m.index;
        mode = e.mode;
      },
    )

-- What matching starts from: the ack has taken the first number.
abbrev pub start_match : Order → Book → Engine → Matching
start_match active book e = record {
  active = active;
  queue = other_side active.side book;
  deliveries = [];
  seq = add_seq e.others e.seq;
  others = e.others;
  index = e.index;
}

-- The acknowledgement that matching starts with.
abbrev pub accept_ack : NewOrder → ℕ → ℕ → Ack
accept_ack msg seq now = record {
  client_order_id = msg.client_order_id;
  status = accepted;
  engine_seq = seq;
  ts_ns = now;
  reason = "";
}

-- `ProcessNew` under the book's lock; `addr` is the address of the new order.
unfoldable pub enter :
    Side → Bool → String → NewOrder → Option Client → ℕ → ℕ → Engine → Reply × Engine
enter side market symbol msg owner addr now e =
    let book = book_for symbol e.books in
    let insert_seq = next_seq book.insert_seq in
    let active = active_order side symbol msg addr insert_seq owner in
    settle side market symbol (accept_ack msg (add_seq e.others e.seq) now) insert_seq
      (own_side side book) (match_side side market (start_match active book e)) e

-- `strings.ToUpper` and `len` of a string, its bytes.
module _ (to_upper : String → String) (len : String → ℕ) where
  abbrev pub order_type_of : NewOrder → String
  order_type_of msg = or_default "LIMIT" (to_upper msg.order_type)

  -- The first test of `ProcessNew`, but for the side.
  abbrev pub is_invalid : NewOrder → Bool
  is_invalid msg =
      str_eq msg.client_order_id ""
      || leb_ℤ msg.qty (pos 0)
      || (str_eq (order_type_of msg) "LIMIT" && leb_ℤ msg.price (pos 0))

  abbrev pub is_too_long : NewOrder → Bool
  is_too_long msg =
      ltb max_order_field_len (len msg.client_order_id) || ltb max_order_field_len (len msg.symbol)

  -- `ProcessNew` once the side is known.
  abbrev pub admit : Option Side → NewOrder → Option Client → ℕ → ℕ → Engine → Reply × Engine
  admit none msg owner addr now e = refuse "invalid_order" msg now e
  admit (some side) msg owner addr now e = elim (is_invalid msg) [
    | true ↦ refuse "invalid_order" msg now e
    | false ↦ elim (is_too_long msg) [
      | true ↦ refuse "field_too_long" msg now e
      | false ↦
          enter side (str_eq (order_type_of msg) "MARKET") (or_default "DEFAULT" msg.symbol) msg
            owner addr now e
    ]
  ]

  -- `ProcessNew`
  unfoldable pub process_new : NewOrder → Option Client → ℕ → ℕ → Engine → Reply × Engine
  unfolding enter
  process_new msg owner addr now e = admit (side_of (to_upper msg.side)) msg owner addr now e

abbrev pub cancel_ack : CancelOrder → AckStatus → ℕ → ℕ → Ack
cancel_ack msg status seq now = record {
  client_order_id = msg.client_order_id;
  status = status;
  engine_seq = seq;
  ts_ns = now;
  reason = "";
}

-- The acknowledgement and the books, by what `removeOrder` gave.
abbrev pub cancel_result :
    CancelOrder → Order → ℕ → String → Book → Engine → Option (List Order) → Ack × Engine
cancel_result msg ord now symbol book e none =
    let seq = add_seq e.others e.seq in
    (
      cancel_ack msg not_found seq now,
      record e { seq = seq; books = store_book symbol book e.books },
    )
cancel_result msg ord now symbol book e (some own) =
    let seq = add_seq e.others e.seq in
    (
      cancel_ack msg canceled seq now,
      record e {
        seq = seq;
        books =
            store_book symbol (with_sides ord.side book.insert_seq own (other_side ord.side book))
              e.books;
        index = index_delete msg.orig_client_order_id e.index;
      },
    )

-- `ProcessCancel` under the lock, with the order that the index gave before.
unfoldable pub cancel_found : CancelOrder → Order → ℕ → Engine → Ack × Engine
cancel_found msg ord now e =
    let symbol = or_default "DEFAULT" ord.symbol in
    let book = book_for symbol e.books in
    cancel_result msg ord now symbol book e
      (remove_order (is_broken e) ord (own_side ord.side book))

-- `ProcessCancel` with what `e.index.Load` gave.
unfoldable pub cancel_loaded : CancelOrder → Option Order → ℕ → Engine → Ack × Engine
unfolding cancel_found
cancel_loaded msg none now e =
    let seq = add_seq e.others e.seq in (cancel_ack msg not_found seq now, record e { seq = seq })
cancel_loaded msg (some ord) now e = cancel_found msg ord now e

-- `ProcessCancel` where nothing happens between the load and the lock.
unfoldable pub process_cancel : CancelOrder → ℕ → Engine → Ack × Engine
unfolding cancel_loaded index_load
process_cancel msg now e = cancel_loaded msg (index_load msg.orig_client_order_id e.index) now e
