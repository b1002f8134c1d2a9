-- ===== src/Engine/Invariant.antt =====
-- examples/stub-engine/main.go: the books stay sorted, positive, uncrossed and bounded.
use quant_dominater.Base.{
  ℕ, suc, ◌≤◌, ◌<◌, String, Bool, true, false, List, [], ◌∷◌, ◌≡◌, inl, inr, refl, sym, ap, subst,
  ◌∙◌, length, All, arith, Bool-cases, str_eq, if◌then◌else◌,
}
use quant_dominater.Engine.Order.{Side, buy, sell, Order}
use quant_dominater.Engine.Book.{insert_sorted}
use quant_dominater.Engine.Match.{Matching, can_trade, match_side}
use quant_dominater.Engine.Matching.{opposite, Matched, match_side-Matched}
use quant_dominater.Engine.Ends.{match_side_ends}
use quant_dominater.Engine.Sides.{
  Apart, Uncrossed, Uncrossed-flip, SideOk, SideOk-later, insert_sorted-SideOk,
  insert_sorted-Uncrossed, length-match_side, stopped-Apart, All-map, All-zip,
}
use quant_dominater.Engine.Process.{
  Book, Books, Engine, max_resting_per_symbol, is_broken, book_for, store_book, own_side,
  other_side, with_sides,
}

-- A book: both sides are in order, hold positive quantities and no more orders than the cap, with
-- insertion numbers that the book has given, and no buy trades with a sell.
pub record BookOk (broken : Bool) (b : Book) : Type 0 where
  pub buys_ok : SideOk buy broken b.insert_seq b.buys
  pub sells_ok : SideOk sell broken b.insert_seq b.sells
  pub uncrossed : Uncrossed buy b.buys b.sells

abbrev pub BooksOk : Bool → Books → Type 0
BooksOk broken books = All (λ (p : String × Book). BookOk broken p.1) books

abbrev pub EngineOk : Engine → Type 0
EngineOk e = BooksOk (is_broken e) e.books

module _ (broken : Bool) where
  pub with_sides-BookOk :
      (side : Side) (n : ℕ) (own other : List Order)
      → SideOk side broken n own
      → SideOk (opposite side) broken n other
      → Uncrossed side own other
      → BookOk broken (with_sides side n own other)
  with_sides-BookOk buy n own other a b c = record { buys_ok = a; sells_ok = b; uncrossed = c }
  with_sides-BookOk sell n own other a b c = record {
    buys_ok = b;
    sells_ok = a;
    uncrossed = Uncrossed-flip sell own other c;
  }

  pub own_side-SideOk :
      (side : Side) (b : Book) → BookOk broken b → SideOk side broken b.insert_seq (own_side side b)
  own_side-SideOk buy b h = h.buys_ok
  own_side-SideOk sell b h = h.sells_ok

  pub other_side-SideOk :
      (side : Side) (b : Book)
      → BookOk broken b
      → SideOk (opposite side) broken b.insert_seq (other_side side b)
  other_side-SideOk buy b h = h.sells_ok
  other_side-SideOk sell b h = h.buys_ok

  pub sides_Uncrossed :
      (side : Side) (b : Book)
      → BookOk broken b
      → Uncrossed side (own_side side b) (other_side side b)
  sides_Uncrossed buy b h = h.uncrossed
  sides_Uncrossed sell b h = Uncrossed-flip buy b.buys b.sells h.uncrossed

  -- A book that does not exist yet is made empty.
  pub book_for-BookOk :
      (symbol : String) (books : Books)
      → BooksOk broken books
      → BookOk broken (book_for symbol books)
  unfolding book_for
  book_for-BookOk symbol [] h = record {
    buys_ok = record { positive = tt; ladder = tt; on_side = tt; older = tt; few = omega arith };
    sells_ok = record { positive = tt; ladder = tt; on_side = tt; older = tt; few = omega arith };
    uncrossed = tt;
  }
  book_for-BookOk symbol ((k, b) ∷ books) h = elim (Bool-cases (str_eq k symbol)) [
    | inl e ↦ rw (e, book_for) h.0
    | inr e ↦ rw (e, book_for) (book_for-BookOk symbol books h.1)
  ]

  pub store_book-BooksOk :
      (symbol : String) (b : Book) (books : Books)
      → BookOk broken b
      → BooksOk broken books
      → BooksOk broken (store_book symbol b books)
  unfolding store_book
  store_book-BooksOk symbol b [] hb h = (hb, tt)
  store_book-BooksOk symbol b ((k, c) ∷ books) hb h = elim (Bool-cases (str_eq k symbol)) [
    | inl e ↦ rw (e, store_book) (hb, h.1)
    | inr e ↦ rw (e, store_book) (h.0, store_book-BooksOk symbol b books hb h.1)
  ]

  -- What the loop does not change of the other side, told by its orders.
  abbrev Kept : Side → ℕ → List Order → Order → Type 0
  Kept side n own x =
      ((x.side ≡ opposite side) × (x.insert_seq ≤ n)) × All (λ y. Apart side y.price x.price) own

  module _ (side : Side) (market : Bool) (n : ℕ) (own : List Order) (m0 : Matching)
      (own_ok : SideOk side broken n own) (other_ok : SideOk (opposite side) broken n m0.queue)
      (apart : Uncrossed side own m0.queue) (no_fills : m0.deliveries ≡ []) where
    matched :
        Matched side market broken (Kept side n own) (λ o q h. h) m0 (match_side side market m0)
    matched =
        match_side-Matched side market broken (Kept side n own) (λ o q h. h) m0 other_ok.positive
          other_ok.ladder
          (All-zip _ _ m0.queue (All-zip _ _ m0.queue other_ok.on_side other_ok.older) apart)
          (subst (All _) (sym no_fills) tt)

    left_ok : SideOk (opposite side) broken n (match_side side market m0).queue
    left_ok = record {
      positive = matched.positive;
      ladder = matched.ladder;
      on_side = All-map _ _ _ (λ x h. h.0.0) matched.kept;
      older = All-map _ _ _ (λ x h. h.0.1) matched.kept;
      few = omega (arith, length-match_side side market m0, other_ok.few);
    }

    -- The book that `ProcessNew` leaves, whether or not the rest of the order rests.
    pub settled-BookOk :
        (rests : Bool)
        → m0.active.side ≡ side
        → m0.active.insert_seq ≡ suc n
        → (rests ≡ true
            → (0 < (match_side side market m0).active.qty)
              × (market ≡ false)
              × (length own < max_resting_per_symbol))
        → BookOk broken (
            with_sides side
              (suc n)
              (if rests
                then insert_sorted side broken (match_side side market m0).active own
                else own)
              (match_side side market m0).queue)
    settled-BookOk false s i h =
        with_sides-BookOk side (suc n) own _
          (SideOk-later side broken n (suc n) own (omega arith) own_ok)
          (SideOk-later (opposite side) broken n (suc n) _ (omega arith) left_ok)
          (All-map _ _ _ (λ x h. h.1) matched.kept)
    settled-BookOk true s i h =
        let a = (match_side side market m0).active in
        let (p, nm, f) = h refl in
        let same = matched.same_active in
        with_sides-BookOk side (suc n) (insert_sorted side broken a own) _
          (insert_sorted-SideOk side broken n a own (ap (λ (o : Order). o.side) same ∙ s)
            (ap (λ (o : Order). o.insert_seq) same ∙ i) p f own_ok)
          (SideOk-later (opposite side) broken n (suc n) _ (omega arith) left_ok)
          (insert_sorted-Uncrossed side broken a own _ own_ok.ladder
            (stopped-Apart side broken a _
              (subst (λ (b : Bool). can_trade side b a (match_side side market m0).queue ≡ false) nm
                (match_side_ends side market m0 other_ok.positive))
              p left_ok.ladder)
            (All-map _ _ _ (λ x h. h.1) matched.kept))
