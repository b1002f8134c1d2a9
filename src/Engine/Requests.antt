-- ===== src/Engine/Requests.antt =====
-- examples/stub-engine/main.go: every request keeps the books in order.
use quant_dominater.Base.{
  ℕ, suc, ◌+◌, ◌^◌, ◌<◌, String, Bool, true, false, not, ◌&&◌, Option, none, some, List, ◌≡◌, inl,
  inr, refl, sym, subst, length, arith, Bool-cases, ltb, if◌then◌else◌,
}
use quant_dominater.Engine.Order.{Side, Client, Order}
use quant_dominater.Engine.Book.{insert_sorted, remove_order}
use quant_dominater.Engine.Match.{next_seq, match_side}
use quant_dominater.Engine.Sides.{remove_at-SideOk, remove_order-remove_at, All-remove_at, All-map}
use quant_dominater.Engine.Process.{
  NewOrder, CancelOrder, Book, Engine, max_resting_per_symbol, is_broken, or_default, book_for,
  own_side, other_side, with_sides, settle, start_match, active_order, enter, is_invalid,
  is_too_long, admit, side_of, process_new, cancel_found, cancel_loaded, cancel_result,
}
use quant_dominater.Engine.Invariant.{
  BookOk, EngineOk, book_for-BookOk, store_book-BooksOk, own_side-SideOk, other_side-SideOk,
  sides_Uncrossed, settled-BookOk, with_sides-BookOk,
}

pub next_seq_fits : (n : ℕ) → n + 1 < 2 ^ 64 → next_seq n ≡ suc n
next_seq_fits n h = omega arith

rests_parts :
    (qty len : ℕ) (market : Bool)
    → (ltb 0 qty && not market && ltb len max_resting_per_symbol) ≡ true
    → (0 < qty) × (market ≡ false) × (len < max_resting_per_symbol)
rests_parts qty len market h = (ground arith, ground arith, ground arith)

enter-EngineOk :
    (side : Side) (market : Bool) (symbol : String) (msg : NewOrder) (owner : Option Client)
    (addr now : ℕ) (e : Engine)
    → (book_for symbol e.books).insert_seq + 1 < 2 ^ 64
    → EngineOk e
    → EngineOk (enter side market symbol msg owner addr now e).1
unfolding enter settle
enter-EngineOk side market symbol msg owner addr now e room ok =
    let book = book_for symbol e.books in
    let b_ok = book_for-BookOk (is_broken e) symbol e.books ok in
    let own = own_side side book in
    let m0 =
      start_match (active_order side symbol msg addr (next_seq book.insert_seq) owner) book e in
    let m = match_side side market m0 in
    let rests = (ltb 0 m.active.qty && not market) && ltb (length own) max_resting_per_symbol in
    store_book-BooksOk (is_broken e) symbol _ e.books
      (subst
        (λ (k : ℕ). BookOk (is_broken e) (
          with_sides side k (if rests then insert_sorted side (is_broken e) m.active own else own)
            m.queue))
        (sym (next_seq_fits book.insert_seq room))
        (settled-BookOk (is_broken e) side market book.insert_seq own m0
          (own_side-SideOk (is_broken e) side book b_ok)
          (other_side-SideOk (is_broken e) side book b_ok)
          (sides_Uncrossed (is_broken e) side book b_ok) refl rests refl
          (next_seq_fits book.insert_seq room)
          (λ h. rests_parts m.active.qty (length own) market h)))
      ok

admit-EngineOk :
    (to_upper : String → String) (len : String → ℕ) (side : Option Side) (msg : NewOrder)
    (owner : Option Client) (addr now : ℕ) (e : Engine)
    → (book_for (or_default "DEFAULT" msg.symbol) e.books).insert_seq + 1 < 2 ^ 64
    → EngineOk e
    → EngineOk (admit to_upper len side msg owner addr now e).1
admit-EngineOk to_upper len none msg owner addr now e room ok = ok
admit-EngineOk to_upper len (some side) msg owner addr now e room ok =
    elim (Bool-cases (is_invalid to_upper len msg)) [
      | inl i ↦ rw (i, admit) ok
      | inr i ↦
          rw (i, admit)
            (elim (Bool-cases (is_too_long to_upper len msg)) [
              | inl t ↦ rw (t, admit) ok
              | inr t ↦ rw (t, admit) (enter-EngineOk side _ _ msg owner addr now e room ok)
            ])
    ]

-- Whatever the request, its address and the clock, `ProcessNew` keeps the books in order.
pub process_new-EngineOk :
    (to_upper : String → String) (len : String → ℕ) (msg : NewOrder) (owner : Option Client)
    (addr now : ℕ) (e : Engine)
    → (book_for (or_default "DEFAULT" msg.symbol) e.books).insert_seq + 1 < 2 ^ 64
    → EngineOk e
    → EngineOk (process_new to_upper len msg owner addr now e).1
unfolding process_new
process_new-EngineOk to_upper len msg owner addr now e room ok =
    admit-EngineOk to_upper len (side_of (to_upper msg.side)) msg owner addr now e room ok

removed-BookOk :
    (broken : Bool) (ord : Order) (b : Book) (t : List Order)
    → remove_order broken ord (own_side ord.side b) ≡ some t
    → BookOk broken b
    → BookOk broken (with_sides ord.side b.insert_seq t (other_side ord.side b))
removed-BookOk broken ord b t h ok =
    let (i, e) = remove_order-remove_at broken ord (own_side ord.side b) t h in
    subst
      (λ (l : List Order).
        BookOk broken (with_sides ord.side b.insert_seq l (other_side ord.side b)))
      e
      (with_sides-BookOk broken ord.side b.insert_seq _ _
        (remove_at-SideOk ord.side broken b.insert_seq _ i (own_side-SideOk broken ord.side b ok))
        (other_side-SideOk broken ord.side b ok)
        (All-map _ _ _ (λ x p. All-remove_at _ _ i p) (sides_Uncrossed broken ord.side b ok)))

cancel_result-EngineOk :
    (msg : CancelOrder) (ord : Order) (now : ℕ) (symbol : String) (book : Book) (e : Engine)
    (r : Option (List Order))
    → BookOk (is_broken e) book
    → EngineOk e
    → remove_order (is_broken e) ord (own_side ord.side book) ≡ r
    → EngineOk (cancel_result msg ord now symbol book e r).1
cancel_result-EngineOk msg ord now symbol book e none b_ok ok h =
    store_book-BooksOk (is_broken e) symbol _ e.books b_ok ok
cancel_result-EngineOk msg ord now symbol book e (some t) b_ok ok h =
    store_book-BooksOk (is_broken e) symbol _ e.books
      (removed-BookOk (is_broken e) ord book t h b_ok) ok

-- Whatever order the index gave, however long ago, `ProcessCancel` keeps the books in order.
pub cancel_loaded-EngineOk :
    (msg : CancelOrder) (found : Option Order) (now : ℕ) (e : Engine)
    → EngineOk e
    → EngineOk (cancel_loaded msg found now e).1
unfolding cancel_loaded cancel_found
cancel_loaded-EngineOk msg none now e ok = ok
cancel_loaded-EngineOk msg (some ord) now e ok =
    let symbol = or_default "DEFAULT" ord.symbol in
    let book = book_for symbol e.books in
    cancel_result-EngineOk msg ord now symbol book e _
      (book_for-BookOk (is_broken e) symbol e.books ok) ok refl
