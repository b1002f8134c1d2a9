-- ===== src/Engine/Served.antt =====
-- examples/stub-engine/main.go: sequences of requests, as the book's lock orders them.
use quant_dominater.Base.{
  ℕ, suc, ◌+◌, ◌^◌, ◌≤◌, ◌<◌, String, Bool, Option, none, some, List, [], ◌∷◌, ◌≡◌, inl, inr, refl,
  length, All, arith, Bool-cases, str_eq,
}
use quant_dominater.Engine.Order.{Side, buy, sell, Client, Order}
use quant_dominater.Engine.Match.{next_seq}
use quant_dominater.Engine.Process.{
  NewOrder, CancelOrder, Book, Books, Engine, or_default, book_for, store_book, with_sides, settle,
  enter, is_invalid, is_too_long, admit, side_of, process_new, cancel_found, cancel_loaded,
  cancel_result,
}
use quant_dominater.Engine.Invariant.{EngineOk}
use quant_dominater.Engine.Requests.{process_new-EngineOk, cancel_loaded-EngineOk}

-- A request as it takes the lock: a cancel has loaded its order from the index before, in any
-- earlier state, so the order is arbitrary.
pub data Request : Type 0 where
  place : NewOrder → Option Client → ℕ → ℕ → Request
  withdraw : CancelOrder → Option Order → ℕ → Request

-- The engine that `main` makes for `--engine mutex`.
abbrev pub new_engine : (ℕ → ℕ) → String → Engine
new_engine others mode = record { seq = 0; others = others; books = []; index = []; mode = mode }

abbrev Counted : ℕ → Books → Type 0
Counted n books = All (λ (p : String × Book). p.1.insert_seq ≤ n) books

book_for-Counted :
    (n : ℕ) (symbol : String) (books : Books)
    → Counted n books
    → (book_for symbol books).insert_seq ≤ n
unfolding book_for
book_for-Counted n symbol [] h = omega arith
book_for-Counted n symbol ((k, b) ∷ books) h = elim (Bool-cases (str_eq k symbol)) [
  | inl e ↦ rw (e, book_for) h.0
  | inr e ↦ rw (e, book_for) (book_for-Counted n symbol books h.1)
]

Counted-later : (n k : ℕ) (books : Books) → n ≤ k → Counted n books → Counted k books
Counted-later n k [] l h = tt
Counted-later n k (b ∷ books) l h = (omega (arith, h.0), Counted-later n k books l h.1)

store_book-Counted :
    (n : ℕ) (symbol : String) (b : Book) (books : Books)
    → b.insert_seq ≤ n
    → Counted n books
    → Counted n (store_book symbol b books)
unfolding store_book
store_book-Counted n symbol b [] hb h = (hb, tt)
store_book-Counted n symbol b ((k, c) ∷ books) hb h = elim (Bool-cases (str_eq k symbol)) [
  | inl e ↦ rw (e, store_book) (hb, h.1)
  | inr e ↦ rw (e, store_book) (h.0, store_book-Counted n symbol b books hb h.1)
]

with_sides_seq :
    (side : Side) (n : ℕ) (own other : List Order) → (with_sides side n own other).insert_seq ≡ n
with_sides_seq buy n own other = refl
with_sides_seq sell n own other = refl

next_seq_small : (n k : ℕ) → n ≤ k → next_seq n ≤ suc k
next_seq_small n k h = omega arith

enter-Counted :
    (side : Side) (market : Bool) (symbol : String) (msg : NewOrder) (owner : Option Client)
    (addr now n : ℕ) (e : Engine)
    → Counted n e.books
    → Counted (suc n) (enter side market symbol msg owner addr now e).1.books
unfolding enter settle
enter-Counted side market symbol msg owner addr now n e h =
    store_book-Counted (suc n) symbol _ e.books
      (omega (
        arith,
        with_sides_seq side (next_seq (book_for symbol e.books).insert_seq) _ _,
        next_seq_small _ n (book_for-Counted n symbol e.books h),
      ))
      (Counted-later n (suc n) e.books (omega arith) h)

module _ (to_upper : String → String) (len : String → ℕ) where
  admit-Counted :
      (side : Option Side) (msg : NewOrder) (owner : Option Client) (addr now n : ℕ) (e : Engine)
      → Counted n e.books
      → Counted (suc n) (admit to_upper len side msg owner addr now e).1.books
  admit-Counted none msg owner addr now n e h = Counted-later n (suc n) e.books (omega arith) h
  admit-Counted (some side) msg owner addr now n e h =
      let later = Counted-later n (suc n) e.books (omega arith) h in
      elim (Bool-cases (is_invalid to_upper len msg)) [
        | inl i ↦ rw (i, admit) later
        | inr i ↦
            rw (i, admit)
              (elim (Bool-cases (is_too_long to_upper len msg)) [
                | inl t ↦ rw (t, admit) later
                | inr t ↦ rw (t, admit) (enter-Counted side _ _ msg owner addr now n e h)
              ])
      ]

  cancel_result-Counted :
      (msg : CancelOrder) (ord : Order) (now n : ℕ) (symbol : String) (book : Book) (e : Engine)
      (r : Option (List Order))
      → book.insert_seq ≤ n
      → Counted n e.books
      → Counted n (cancel_result msg ord now symbol book e r).1.books
  cancel_result-Counted msg ord now n symbol book e none b h =
      store_book-Counted n symbol _ e.books b h
  cancel_result-Counted msg ord now n symbol book e (some t) b h =
      store_book-Counted n symbol _ e.books
        (omega (arith, with_sides_seq ord.side book.insert_seq t _)) h

  -- The engine behind one request.
  unfoldable pub serve : Request → Engine → Engine
  unfolding process_new cancel_loaded
  serve (place msg owner addr now) e = (process_new to_upper len msg owner addr now e).1
  serve (withdraw msg found now) e = (cancel_loaded msg found now e).1

  -- The engine behind a sequence of requests, the first one first.
  unfoldable pub serve_all : List Request → Engine → Engine
  unfolding serve
  serve_all [] e = e
  serve_all (r ∷ rs) e = serve_all rs (serve r e)

  serve-Counted :
      (n : ℕ) (r : Request) (e : Engine) → Counted n e.books → Counted (suc n) (serve r e).books
  unfolding serve process_new cancel_loaded cancel_found
  serve-Counted n (place msg owner addr now) e h =
      admit-Counted (side_of (to_upper msg.side)) msg owner addr now n e h
  serve-Counted n (withdraw msg none now) e h = Counted-later n (suc n) e.books (omega arith) h
  serve-Counted n (withdraw msg (some ord) now) e h =
      let symbol = or_default "DEFAULT" ord.symbol in
      Counted-later n (suc n) _ (omega arith) (
        cancel_result-Counted msg ord now n symbol (book_for symbol e.books) e _
          (book_for-Counted n symbol e.books h) h)

  serve-EngineOk :
      (n : ℕ) (r : Request) (e : Engine)
      → suc n < 2 ^ 64
      → Counted n e.books
      → EngineOk e
      → EngineOk (serve r e)
  unfolding serve
  serve-EngineOk n (place msg owner addr now) e l h ok =
      process_new-EngineOk to_upper len msg owner addr now e
        (omega (arith, book_for-Counted n (or_default "DEFAULT" msg.symbol) e.books h)) ok
  serve-EngineOk n (withdraw msg found now) e l h ok = cancel_loaded-EngineOk msg found now e ok

  serve_all-from :
      (n : ℕ) (rs : List Request) (e : Engine)
      → n + length rs < 2 ^ 64
      → Counted n e.books
      → EngineOk e
      → EngineOk (serve_all rs e)
  unfolding serve_all
  serve_all-from n [] e l h ok = ok
  serve_all-from n (r ∷ rs) e l h ok =
      serve_all-from (suc n) rs (serve r e) (omega arith) (serve-Counted n r e h)
        (serve-EngineOk n r e (omega arith) h ok)

  -- From an engine with no books, in either mode, after any fewer than 2^64 requests, in any order
  -- and with orders for the cancels that the index may have given long before, every book is in
  -- order: both sides sorted, all quantities positive, at most the cap of orders on a side, and no
  -- resting buy trades with a resting sell.
  pub serve_all-EngineOk :
      (others : ℕ → ℕ) (mode : String) (rs : List Request)
      → length rs < 2 ^ 64
      → EngineOk (serve_all rs (new_engine others mode))
  serve_all-EngineOk others mode rs l =
      serve_all-from 0 rs (new_engine others mode) (omega arith) tt tt
