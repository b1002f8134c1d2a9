-- ===== src/Engine/Disruptor.antt =====
-- examples/stub-engine/disruptor.go: what a shard's matcher does with a request, and the bounded
-- queue of a client.
use quant_dominater.Base.{
  ℕ, ◌+◌, ◌%◌, String, Bool, true, false, not, ◌&&◌, Option, none, some, List, [], ◌∷◌, ◌++◌,
  str_eq, length, ltb, if◌then◌else◌,
}
use quant_dominater.Engine.Order.{Side, Client, Order}
use quant_dominater.Engine.Book.{insert_sorted, remove_order}
use quant_dominater.Engine.Match.{
  Fill, FillDelivery, next_seq, add_seq, index_load, index_delete, index_store, Matching,
}
use quant_dominater.Engine.Shard.{match_shard}
use quant_dominater.Engine.Process.{
  NewOrder, CancelOrder, Ack, not_found, canceled, Book, Books, Engine, is_broken, or_default,
  book_for, store_book, own_side, other_side, with_sides, Reply, refuse, side_of, active_order,
  start_match, accept_ack, is_invalid, order_type_of, cancel_ack,
}

-- An engine here is one shard: its own books, with the sequence number, the index and the mode that
-- all shards share.

-- The end of `processNew`, behind the matching: what is left of a limit order rests.
unfoldable pub settle_shard :
    Side → Bool → String → Ack → ℕ → List Order → Matching → Engine → Reply × Engine
settle_shard side market symbol ack n own m e =
    let rests = ltb 0 m.active.qty && not market in
    (
      (ack, m.deliveries),
      record {
        seq = m.seq;
        others = e.others;
        books =
            store_book symbol
              (with_sides side n
                (if rests then insert_sorted side (is_broken e) m.active own else own) m.queue)
              e.books;
        index = if rests then index_store m.active.id m.active m.index else m.index;
        mode = e.mode;
      },
    )

-- `processNew` of an order that is not refused.
unfoldable pub enter_shard :
    Side → Bool → String → NewOrder → Option Client → ℕ → ℕ → Engine → Reply × Engine
enter_shard side market symbol msg owner addr now e =
    let book = book_for symbol e.books in
    let n = next_seq book.insert_seq in
    settle_shard side market symbol (accept_ack msg (add_seq e.others e.seq) now) n
      (own_side side book)
      (match_shard side market (start_match (active_order side symbol msg addr n owner) book e)) e

module _ (to_upper : String → String) (len : String → ℕ) where
  abbrev pub admit_shard : Option Side → NewOrder → Option Client → ℕ → ℕ → Engine → Reply × Engine
  admit_shard none msg owner addr now e = refuse "invalid_order" msg now e
  admit_shard (some side) msg owner addr now e = elim (is_invalid to_upper len msg) [
    | true ↦ refuse "invalid_order" msg now e
    | false ↦
        enter_shard side (str_eq (order_type_of to_upper len msg) "MARKET")
          (or_default "DEFAULT" msg.symbol) msg owner addr now e
  ]

  -- `processNew`
  unfoldable pub process_new_shard : NewOrder → Option Client → ℕ → ℕ → Engine → Reply × Engine
  unfolding enter_shard
  process_new_shard msg owner addr now e =
      admit_shard (side_of (to_upper msg.side)) msg owner addr now e

-- `sh.books[symbol]`
abbrev pub find_book : String → Books → Option Book
find_book symbol [] = none
find_book symbol ((k, b) ∷ books) = if str_eq k symbol then some b else find_book symbol books

abbrev pub cancel_removed :
    CancelOrder → String → Order → Book → ℕ → Engine → Option (List Order) → Ack × Engine
cancel_removed msg symbol ord book now e none = (
  cancel_ack msg not_found (add_seq e.others e.seq) now,
  record e { seq = add_seq e.others e.seq },
)
cancel_removed msg symbol ord book now e (some own) = (
  cancel_ack msg canceled (add_seq e.others e.seq) now,
  record e {
    seq = add_seq e.others e.seq;
    books =
        store_book symbol (with_sides ord.side book.insert_seq own (other_side ord.side book))
          e.books;
    index = index_delete msg.orig_client_order_id e.index;
  },
)

-- `processCancel` with what the index and the shard's books gave.
abbrev pub cancel_in : CancelOrder → String → Option Order → Option Book → ℕ → Engine → Ack × Engine
cancel_in msg symbol none b now e = (
  cancel_ack msg not_found (add_seq e.others e.seq) now,
  record e { seq = add_seq e.others e.seq },
)
cancel_in msg symbol (some ord) none now e = (
  cancel_ack msg not_found (add_seq e.others e.seq) now,
  record e { seq = add_seq e.others e.seq },
)
cancel_in msg symbol (some ord) (some book) now e =
    cancel_removed msg symbol ord book now e
      (remove_order (is_broken e) ord (own_side ord.side book))

-- `processCancel`
unfoldable pub process_cancel_shard : String → CancelOrder → ℕ → Engine → Ack × Engine
process_cancel_shard symbol msg now e =
    cancel_in msg symbol (index_load msg.orig_client_order_id e.index) (find_book symbol e.books)
      now e

-- What goes to the output writers, to a client that may be missing.
pub data Payload : Type 0 where
  ack_payload : Ack → Payload
  fill_payload : Fill → Payload

pub record OutMsg : Type 0 where
  pub client : Option Client
  pub payload : Payload

abbrev pub fills_to : Fill → List Client → List OutMsg
fills_to fill [] = []
fills_to fill (c ∷ cs) = record { client = some c; payload = fill_payload fill } ∷ fills_to fill cs

abbrev pub fill_messages : List FillDelivery → List OutMsg
fill_messages [] = []
fill_messages (d ∷ ds) = fills_to d.fill d.recipients ++ fill_messages ds

-- `matchLoop`'s case of a new order: the acknowledgement, then each fill to its recipients.
unfoldable pub new_messages : Option Client → Reply → List OutMsg
new_messages client (ack, deliveries) =
    record { client = client; payload = ack_payload ack } ∷ fill_messages deliveries

-- `enqueue`: a full queue drops the payload and counts it.
pub record ClientQueue : Type 0 where
  pub queue : List Payload
  pub dropped : ℕ

abbrev pub client_out_queue : ℕ
client_out_queue = 4096

unfoldable pub enqueue : Payload → ClientQueue → ClientQueue
enqueue p c =
    if ltb (length c.queue) client_out_queue
    then record c { queue = c.queue ++ (p ∷ []) }
    else record c { dropped = c.dropped + 1 }

-- `shardFor`, with the hash of the symbol
abbrev pub shard_for : (String → ℕ) → String → ℕ
shard_for hash symbol = hash symbol % 8
