-- ===== src/Engine/Mirror.antt =====
-- examples/stub-engine: where the disruptor's matcher and the mutex engine agree.
use mathlib.Core.Option
use quant_dominater.Base.{
  ℕ, zero, suc, ◌<◌, String, Bool, true, false, not, ◌&&◌, Option, none, some, List, [], ◌∷◌, ◌≡◌,
  str_eq, length, ltb, refl, sym, subst, arith, Bool-cases, inl, inr,
}
use quant_dominater.Engine.Order.{Side, buy, sell, Client, Order}
use quant_dominater.Engine.Book.{remove_order}
use quant_dominater.Engine.Match.{
  index_load, Matching, trade, can_trade, match_round, match_loop, match_side,
}
use quant_dominater.Engine.Shard.{
  trade_buy, round_buy, loop_buy, trade_sell, round_sell, loop_sell, match_shard,
}
use quant_dominater.Engine.Process.{
  NewOrder, CancelOrder, Ack, accepted, rejected, Book, Books, Engine, max_resting_per_symbol,
  is_broken, or_default, book_for, own_side, settle, enter, admit, process_new, process_cancel,
  cancel_loaded, cancel_found, cancel_result, side_of, is_invalid, is_too_long,
}
use quant_dominater.Engine.Disruptor.{
  settle_shard, enter_shard, admit_shard, process_new_shard, find_book, cancel_removed, cancel_in,
  process_cancel_shard,
}

settle-settle_shard :
    (side : Side) (market : Bool) (symbol : String) (ack : Ack) (n : ℕ) (own : List Order)
    (m : Matching) (e : Engine)
    → length own < max_resting_per_symbol
    → settle_shard side market symbol ack n own m e ≡ settle side market symbol ack n own m e
unfolding settle settle_shard
settle-settle_shard side market symbol ack n own m e h =
    elim (Bool-cases (ltb 0 m.active.qty && not market)) [
      | inl r ↦ rw (r, fits) refl
      | inr r ↦ rw r refl
    ]
  where
    fits : ltb (length own) max_resting_per_symbol ≡ true
    fits = ground arith

-- The two engines' loops make the same trades.
round_buy-match_round :
    (market : Bool) (m : Matching) (f g : Matching → Matching)
    → ((m' : Matching) → f m' ≡ g m')
    → (q : List Order) → round_buy f market m q ≡ match_round g buy market m q
unfolding trade_buy trade
round_buy-match_round market m f g h [] = refl
round_buy-match_round market m f g h (x ∷ q) =
    elim (Bool-cases (can_trade buy market m.active (x ∷ q))) [
      | inl e ↦ rw (e, round_buy, match_round) (h (trade buy m x q))
      | inr e ↦ rw (e, round_buy, match_round) refl
    ]

loop_buy-match_loop :
    (fuel : ℕ) (market : Bool) (m : Matching)
    → loop_buy fuel market m ≡ match_loop fuel buy market m
unfolding loop_buy match_loop
loop_buy-match_loop zero market m = refl
loop_buy-match_loop (suc fuel) market m =
    round_buy-match_round market m (λ m'. loop_buy fuel market m')
      (λ m'. match_loop fuel buy market m') (loop_buy-match_loop fuel market) m.queue

round_sell-match_round :
    (market : Bool) (m : Matching) (f g : Matching → Matching)
    → ((m' : Matching) → f m' ≡ g m')
    → (q : List Order) → round_sell f market m q ≡ match_round g sell market m q
unfolding trade_sell trade
round_sell-match_round market m f g h [] = refl
round_sell-match_round market m f g h (x ∷ q) =
    elim (Bool-cases (can_trade sell market m.active (x ∷ q))) [
      | inl e ↦ rw (e, round_sell, match_round) (h (trade sell m x q))
      | inr e ↦ rw (e, round_sell, match_round) refl
    ]

loop_sell-match_loop :
    (fuel : ℕ) (market : Bool) (m : Matching)
    → loop_sell fuel market m ≡ match_loop fuel sell market m
unfolding loop_sell match_loop
loop_sell-match_loop zero market m = refl
loop_sell-match_loop (suc fuel) market m =
    round_sell-match_round market m (λ m'. loop_sell fuel market m')
      (λ m'. match_loop fuel sell market m') (loop_sell-match_loop fuel market) m.queue

match_shard-match_side :
    (side : Side) (market : Bool) (m : Matching)
    → match_shard side market m ≡ match_side side market m
unfolding match_shard match_side
match_shard-match_side buy market m = loop_buy-match_loop (suc (length m.queue)) market m
match_shard-match_side sell market m = loop_sell-match_loop (suc (length m.queue)) market m

module _ (to_upper : String → String) (len : String → ℕ) where
  admit_shard-admit :
      (side : Option Side) (msg : NewOrder) (owner : Option Client) (addr now : ℕ) (e : Engine)
      → is_too_long to_upper len msg ≡ false
      → ((s : Side)
          → length (own_side s (book_for (or_default "DEFAULT" msg.symbol) e.books))
            < max_resting_per_symbol)
      → admit_shard to_upper len side msg owner addr now e
        ≡ admit to_upper len side msg owner addr now e
  unfolding enter enter_shard
  admit_shard-admit none msg owner addr now e short room = refl
  admit_shard-admit (some side) msg owner addr now e short room =
      elim (Bool-cases (is_invalid to_upper len msg)) [
        | inl v ↦ rw (v, admit, admit_shard) refl
        | inr v ↦
            rw (v, short, match_shard-match_side, admit, admit_shard)
              (settle-settle_shard side _ _ _ _ _ _ e (room side))
      ]

  -- The disruptor's matcher answers a new order and leaves its shard as the mutex engine does, for every
  -- order whose id and symbol are within the length limit and whose book is below the cap of resting
  -- orders on both sides.
  pub process_new_shard-process_new :
      (msg : NewOrder) (owner : Option Client) (addr now : ℕ) (e : Engine)
      → is_too_long to_upper len msg ≡ false
      → ((s : Side)
          → length (own_side s (book_for (or_default "DEFAULT" msg.symbol) e.books))
            < max_resting_per_symbol)
      → process_new_shard to_upper len msg owner addr now e
        ≡ process_new to_upper len msg owner addr now e
  unfolding process_new process_new_shard
  process_new_shard-process_new msg owner addr now e short room =
      admit_shard-admit (side_of (to_upper msg.side)) msg owner addr now e short room

  admits :
      (side : Side) (msg : NewOrder) (owner : Option Client) (addr now : ℕ) (e : Engine)
      → is_invalid to_upper len msg ≡ false
      → is_too_long to_upper len msg ≡ true
      → ((admit to_upper len (some side) msg owner addr now e).0.0.status ≡ rejected)
        × ((admit_shard to_upper len (some side) msg owner addr now e).0.0.status ≡ accepted)
  unfolding enter_shard settle_shard
  admits side msg owner addr now e v t = rw (v, t, admit, admit_shard) (refl, refl)

  -- An order whose id or symbol is too long, and in which nothing else is wrong, is rejected by the mutex
  -- engine and accepted by the disruptor.
  pub process_new_shard_too_long :
      (side : Side) (msg : NewOrder) (owner : Option Client) (addr now : ℕ) (e : Engine)
      → side_of (to_upper msg.side) ≡ some side
      → is_invalid to_upper len msg ≡ false
      → is_too_long to_upper len msg ≡ true
      → ((process_new to_upper len msg owner addr now e).0.0.status ≡ rejected)
        × ((process_new_shard to_upper len msg owner addr now e).0.0.status ≡ accepted)
  unfolding process_new process_new_shard
  process_new_shard_too_long side msg owner addr now e s v t =
      subst
        (λ (o : Option Side).
          ((admit to_upper len o msg owner addr now e).0.0.status ≡ rejected)
          × ((admit_shard to_upper len o msg owner addr now e).0.0.status ≡ accepted))
        (sym s) (admits side msg owner addr now e v t)

find_book-book_for :
    (symbol : String) (books : Books) (b : Book)
    → find_book symbol books ≡ some b
    → book_for symbol books ≡ b
unfolding book_for
find_book-book_for symbol [] b = λ h. absurd cc
find_book-book_for symbol ((k, c) ∷ books) b = elim (Bool-cases (str_eq k symbol)) [
  | inl e ↦ rw (e, find_book, book_for) (λ h. Option.some_inj.0 h)
  | inr e ↦ rw (e, find_book, book_for) (find_book-book_for symbol books b)
]

empty_own :
    (side : Side) (symbol : String) (books : Books)
    → find_book symbol books ≡ none
    → own_side side (book_for symbol books) ≡ []
unfolding book_for
empty_own buy symbol [] = λ h. refl
empty_own sell symbol [] = λ h. refl
empty_own side symbol ((k, c) ∷ books) = elim (Bool-cases (str_eq k symbol)) [
  | inl e ↦ rw (e, find_book) (λ h. absurd cc)
  | inr e ↦ rw (e, find_book, book_for) (empty_own side symbol books)
]

same_ack :
    (msg : CancelOrder) (symbol symbol' : String) (ord : Order) (b b' : Book) (now : ℕ) (e : Engine)
    (r : Option (List Order))
    → (cancel_removed msg symbol ord b now e r).0 ≡ (cancel_result msg ord now symbol' b' e r).0
same_ack msg symbol symbol' ord b b' now e none = refl
same_ack msg symbol symbol' ord b b' now e (some own) = refl

remove_order-nil : (broken : Bool) (ord : Order) → remove_order broken ord [] ≡ none
unfolding remove_order
remove_order-nil broken ord = refl

module _ (msg : CancelOrder) (symbol : String) (now : ℕ) (e : Engine) where
  cancel_in-cancel_found :
      (ord : Order) (b : Option Book)
      → or_default "DEFAULT" ord.symbol ≡ symbol
      → find_book symbol e.books ≡ b
      → (cancel_in msg symbol (some ord) b now e).0 ≡ (cancel_found msg ord now e).0
  unfolding cancel_found
  cancel_in-cancel_found ord none s f =
      rw (s, empty_own ord.side symbol e.books f, remove_order-nil (is_broken e) ord) refl
  cancel_in-cancel_found ord (some b) s f =
      rw (s, find_book-book_for symbol e.books b f) (same_ack msg symbol symbol ord b b now e _)

  found_ack :
      (found : Option Order)
      → ((ord : Order) → found ≡ some ord → or_default "DEFAULT" ord.symbol ≡ symbol)
      → (cancel_in msg symbol found (find_book symbol e.books) now e).0
        ≡ (cancel_loaded msg found now e).0
  unfolding cancel_loaded
  found_ack none h = refl
  found_ack (some ord) h = cancel_in-cancel_found ord (find_book symbol e.books) (h ord refl) refl

  -- The disruptor's matcher acknowledges a cancel as the mutex engine does, where the request carries the
  -- symbol of the order that the index has.
  pub process_cancel_shard-process_cancel :
      ((ord : Order)
        → index_load msg.orig_client_order_id e.index ≡ some ord
        → or_default "DEFAULT" ord.symbol ≡ symbol)
      → (process_cancel_shard symbol msg now e).0 ≡ (process_cancel msg now e).0
  unfolding process_cancel process_cancel_shard
  process_cancel_shard-process_cancel h = found_ack (index_load msg.orig_client_order_id e.index) h
