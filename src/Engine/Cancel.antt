-- ===== src/Engine/Cancel.antt =====
-- examples/stub-engine/main.go: `ProcessNew`, and then `ProcessCancel` of the same order.
use quant_dominater.Base.{
  ℕ, ◌+◌, ◌^◌, ◌<◌, String, Bool, true, false, not, ◌&&◌, Option, none, some, List, [], ◌∷◌, ◌≡◌,
  inl, inr, refl, sym, ap, subst, ◌∙◌, length, All, arith, Bool-cases, str_eq, str_eq_self, ltb,
  if◌then◌else◌,
}
use quant_dominater.Base.Int.{pos_part}
use quant_dominater.Engine.Order.{Side, buy, sell, Client, Order}
use quant_dominater.Engine.Book.{remove_order, IsLadder}
use quant_dominater.Engine.Match.{
  FillDelivery, next_seq, add_seq, Matching, Index, index_load, index_store, match_side,
}
use quant_dominater.Engine.Matching.{filled}
use quant_dominater.Engine.Process.{
  NewOrder, CancelOrder, Ack, accept_ack, accepted, canceled, Reply, Book, Books, Engine,
  max_resting_per_symbol, is_broken, or_default, book_for, store_book, own_side, with_sides, settle,
  enter, is_invalid, is_too_long, order_type_of, admit, side_of, process_new, reject_residual,
  process_cancel, cancel_loaded, cancel_found, cancel_result,
}
use quant_dominater.Engine.Invariant.{EngineOk, book_for-BookOk, own_side-SideOk}
use quant_dominater.Engine.Requests.{next_seq_fits}
use quant_dominater.Engine.Answers.{start_of, match_side_of-Matched}
use quant_dominater.Engine.Sides.{All-map}
use quant_dominater.Engine.Resting.{Elsewhere, remove_order-insert_sorted}

pub book_for-store_book :
    (symbol : String) (b : Book) (books : Books) → book_for symbol (store_book symbol b books) ≡ b
unfolding book_for store_book
book_for-store_book symbol b [] = rw (str_eq_self symbol, book_for)
book_for-store_book symbol b ((k, c) ∷ books) = elim (Bool-cases (str_eq k symbol)) [
  | inl e ↦ rw (e, store_book) (rw (e, book_for))
  | inr e ↦ rw (e, store_book) (rw (e, book_for) (book_for-store_book symbol b books))
]

own_side-with_sides :
    (side : Side) (n : ℕ) (own other : List Order)
    → own_side side (with_sides side n own other) ≡ own
own_side-with_sides buy n own other = refl
own_side-with_sides sell n own other = refl

own_side-stored :
    (side side' : Side) (symbol symbol' : String) (n : ℕ) (own other : List Order) (books : Books)
    → side' ≡ side
    → symbol' ≡ symbol
    → or_default "DEFAULT" symbol ≡ symbol
    → own_side side' (
        book_for
          (or_default "DEFAULT" symbol')
          (store_book symbol (with_sides side n own other) books))
      ≡ own
own_side-stored side side' symbol symbol' n own other books s y d =
    rw (s, y, d, book_for-store_book symbol (with_sides side n own other) books)
      (own_side-with_sides side n own other)

or_default-twice :
    (s : String) → or_default "DEFAULT" (or_default "DEFAULT" s) ≡ or_default "DEFAULT" s
or_default-twice s = elim (Bool-cases (str_eq s "")) [ inl e ↦ rw e | inr e ↦ rw e (rw e) ]

cancel_result-some :
    (msg : CancelOrder) (ord : Order) (now : ℕ) (symbol : String) (book : Book) (e : Engine)
    (r : Option (List Order)) (own : List Order)
    → r ≡ some own
    → (cancel_result msg ord now symbol book e r).0.status ≡ canceled
cancel_result-some msg ord now symbol book e none own h = absurd cc
cancel_result-some msg ord now symbol book e (some t) own h = refl

-- An order that the index holds and that `removeOrder` finds is cancelled.
process_cancel-found :
    (msg : CancelOrder) (ord : Order) (now : ℕ) (e : Engine) (own : List Order)
    → index_load msg.orig_client_order_id e.index ≡ some ord
    → remove_order
        (is_broken e)
        ord
        (own_side ord.side (book_for (or_default "DEFAULT" ord.symbol) e.books))
      ≡ some own
    → (process_cancel msg now e).0.status ≡ canceled
unfolding process_cancel cancel_loaded cancel_found
process_cancel-found msg ord now e own h k = rw h (cancel_result-some msg ord now _ _ e _ own k)

index_load-index_store :
    (id : String) (o : Order) (index : Index) → index_load id (index_store id o index) ≡ some o
unfolding index_load index_store
index_load-index_store id o index = rw (str_eq_self id, index_load)

-- Where the rest of an order has been put into its book.
module _ (side : Side) (symbol : String) (ack : Ack) (n : ℕ) (own : List Order) (m : Matching)
    (e : Engine) (c : CancelOrder) (now : ℕ) where
  settle-cancel :
      or_default "DEFAULT" symbol ≡ symbol
      → m.active.side ≡ side
      → m.active.symbol ≡ symbol
      → m.active.id ≡ c.orig_client_order_id
      → IsLadder side (is_broken e) own
      → All (λ x. x.insert_seq < m.active.insert_seq) own
      → All (Elsewhere m.active.addr) own
      → 0 < m.active.qty
      → length own < max_resting_per_symbol
      → (process_cancel c now (settle side false symbol ack n own m e).1).0.status ≡ canceled
  unfolding settle
  settle-cancel d s y i lad new fresh left room =
      rw (t1, t2)
        (process_cancel-found c m.active now _ own
          (subst
            (λ (k : String).
              index_load k (index_store m.active.id m.active m.index) ≡ some m.active)
            i (index_load-index_store m.active.id m.active m.index))
          (subst (λ (l : List Order). remove_order (is_broken e) m.active l ≡ some own)
            (sym
              (own_side-stored side m.active.side symbol m.active.symbol n _ m.queue e.books s y d))
            (remove_order-insert_sorted side (is_broken e) m.active own s lad new fresh)))
    where
      t1 : ltb 0 m.active.qty ≡ true
      t1 = ground arith

      t2 : ltb (length own) max_resting_per_symbol ≡ true
      t2 = ground arith

reject_residual-reason :
    (ack : Ack) (ds : List FillDelivery) → (reject_residual ack ds).reason ≡ "" → ⊥
unfolding reject_residual
reject_residual-reason ack [] h = cc
reject_residual-reason ack (d ∷ ds) h = cc

must_fit :
    (ack : Ack) (ds : List FillDelivery) (left fits : Bool)
    → left ≡ true
    → (if (left && true) && not fits then reject_residual ack ds else ack).reason ≡ ""
    → fits ≡ true
must_fit ack ds left true l h = refl
must_fit ack ds true false l h = absurd (reject_residual-reason ack ds h)
must_fit ack ds false false l h = cc

-- An order that does not rest because of the cap is told so.
settle-fits :
    (side : Side) (symbol : String) (ack : Ack) (n : ℕ) (own : List Order) (m : Matching)
    (e : Engine)
    → 0 < m.active.qty
    → (settle side false symbol ack n own m e).0.0.reason ≡ ""
    → length own < max_resting_per_symbol
unfolding settle
settle-fits side symbol ack n own m e left h =
    let f =
      must_fit ack m.deliveries (ltb 0 m.active.qty) (ltb (length own) max_resting_per_symbol)
        (ground arith) h in
    ground arith

module _ (side : Side) (symbol : String) (msg : NewOrder) (owner : Option Client) (addr now : ℕ)
    (e : Engine) (ok : EngineOk e) where
  enter-cancel :
      (c : CancelOrder) (later : ℕ)
      → c.orig_client_order_id ≡ msg.client_order_id
      → or_default "DEFAULT" symbol ≡ symbol
      → (book_for symbol e.books).insert_seq + 1 < 2 ^ 64
      → All (Elsewhere addr) (own_side side (book_for symbol e.books))
      → let r = enter side false symbol msg owner addr now e in
        r.0.0.reason ≡ ""
        → filled r.0.1 < pos_part msg.qty
        → (process_cancel c later r.1).0.status ≡ canceled
  unfolding enter settle
  enter-cancel c later i d room fresh reason part =
      let book = book_for symbol e.books in
      let m = match_side side false (start_of side false symbol msg owner addr e ok) in
      let matched = match_side_of-Matched side false symbol msg owner addr e ok in
      let same = matched.same_active in
      let own_ok =
        own_side-SideOk (is_broken e) side book (book_for-BookOk (is_broken e) symbol e.books ok) in
      let filled_part : filled m.deliveries < pos_part msg.qty = part in
      let left : 0 < m.active.qty = omega (arith, matched.active_left, filled_part) in
      let seq_new = ap (λ (o : Order). o.insert_seq) same ∙ next_seq_fits book.insert_seq room in
      settle-cancel side symbol (accept_ack msg (add_seq e.others e.seq) now)
        (next_seq book.insert_seq) (own_side side book) m e c later d
        (ap (λ (o : Order). o.side) same) (ap (λ (o : Order). o.symbol) same)
        (ap (λ (o : Order). o.id) same ∙ sym i) own_ok.ladder
        (All-map _ _ _ (λ x p. omega (arith, seq_new)) own_ok.older)
        (subst (λ (a : ℕ). All (Elsewhere a) (own_side side book))
          (sym (ap (λ (o : Order). o.addr) same)) fresh)
        left
        (settle-fits side symbol (accept_ack msg (add_seq e.others e.seq) now)
          (next_seq book.insert_seq) (own_side side book) m e left reason)

module _ (to_upper : String → String) (len : String → ℕ) where
  abbrev Cancels : NewOrder → CancelOrder → ℕ → Reply × Engine → Type 0
  Cancels msg c later r =
      r.0.0.status ≡ accepted
      → r.0.0.reason ≡ ""
      → filled r.0.1 < pos_part msg.qty
      → (process_cancel c later r.1).0.status ≡ canceled

  admit-cancel :
      (side : Option Side) (msg : NewOrder) (owner : Option Client) (addr now : ℕ) (e : Engine)
      (c : CancelOrder) (later : ℕ)
      → EngineOk e
      → let book = book_for (or_default "DEFAULT" msg.symbol) e.books in
        book.insert_seq + 1 < 2 ^ 64
        → ((s : Side) → All (Elsewhere addr) (own_side s book))
        → str_eq (order_type_of to_upper len msg) "MARKET" ≡ false
        → c.orig_client_order_id ≡ msg.client_order_id
        → Cancels msg c later (admit to_upper len side msg owner addr now e)
  admit-cancel none msg owner addr now e c later ok room fresh lim i = λ s r f. absurd cc
  admit-cancel (some side) msg owner addr now e c later ok room fresh lim i =
      elim (Bool-cases (is_invalid to_upper len msg)) [
        | inl v ↦ rw (v, admit) (λ s r f. absurd cc)
        | inr v ↦
            rw (v, admit)
              (elim (Bool-cases (is_too_long to_upper len msg)) [
                | inl t ↦ rw (t, admit) (λ s r f. absurd cc)
                | inr t ↦
                    rw (t, lim, admit)
                      (λ s r f.
                        enter-cancel side (or_default "DEFAULT" msg.symbol) msg owner addr now e ok
                          c later i (or_default-twice msg.symbol) room (fresh side) r f)
              ])
      ]

  -- A limit order that is accepted with no reason and not filled in full rests: a cancel that names it,
  -- served next, is answered `canceled`. The books are in order, the new order's address is that of
  -- none of the book's orders, and the book has given fewer than 2^64 - 1 insertion numbers.
  pub process_new-process_cancel :
      (msg : NewOrder) (owner : Option Client) (addr now : ℕ) (e : Engine) (c : CancelOrder)
      (later : ℕ)
      → EngineOk e
      → let book = book_for (or_default "DEFAULT" msg.symbol) e.books in
        book.insert_seq + 1 < 2 ^ 64
        → ((s : Side) → All (Elsewhere addr) (own_side s book))
        → str_eq (order_type_of to_upper len msg) "MARKET" ≡ false
        → c.orig_client_order_id ≡ msg.client_order_id
        → let r = process_new to_upper len msg owner addr now e in
          r.0.0.status ≡ accepted
          → r.0.0.reason ≡ ""
          → filled r.0.1 < pos_part msg.qty
          → (process_cancel c later r.1).0.status ≡ canceled
  unfolding process_new
  process_new-process_cancel msg owner addr now e c later ok room fresh lim i =
      admit-cancel (side_of (to_upper msg.side)) msg owner addr now e c later ok room fresh lim i
