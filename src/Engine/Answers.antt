-- ===== src/Engine/Answers.antt =====
-- examples/stub-engine/main.go: what `ProcessNew` answers, and how its parts fit together.
use quant_dominater.Base.{
  ℕ, suc, ◌+◌, ◌%◌, ◌^◌, ◌≤◌, ◌<◌, String, Bool, not, ◌&&◌, Option, none, some, List, [], ◌∷◌, ◌++◌,
  ◌≡◌, ◌⊎◌, inl, inr, refl, sym, ap₂, subst, ◌∙◌, length, All, arith, Bool-cases, ltb,
}
use quant_dominater.Base.Int.{pos_part}
use quant_dominater.Engine.Order.{Side, Client, Order}
use quant_dominater.Engine.Match.{FillDelivery, next_seq, add_seq, Matching, trade, match_side}
use quant_dominater.Engine.Matching.{filled, FillOk, Matched, match_side-Matched, match_loop_inv}
use quant_dominater.Engine.Process.{
  NewOrder, Ack, accepted, rejected, Reply, Book, Engine, max_resting_per_symbol, is_broken,
  book_for, settle, start_match, active_order, enter, refuse, is_invalid, is_too_long, admit,
  side_of, process_new, reject_residual,
}
use quant_dominater.Engine.Invariant.{EngineOk, book_for-BookOk, other_side-SideOk}

-- Each fill carries a number that was drawn for it alone, in the order of the fills, from `n` on: one
-- more than the number before it and than what other requests drew in between.
abbrev pub Numbered : (ℕ → ℕ) → ℕ → List FillDelivery → Type 0
Numbered others n [] = Unit
Numbered others n (d ∷ ds) =
    (d.fill.engine_seq ≡ (n + others n + 1) % 2 ^ 64) × Numbered others d.fill.engine_seq ds

-- The number of the last fill
abbrev last_seq : ℕ → List FillDelivery → ℕ
last_seq n [] = n
last_seq n (d ∷ ds) = last_seq d.fill.engine_seq ds

Numbered-append :
    (others : ℕ → ℕ) (n : ℕ) (ds : List FillDelivery) (d : FillDelivery)
    → Numbered others n ds
    → d.fill.engine_seq ≡ add_seq others (last_seq n ds)
    → Numbered others n (ds ++ (d ∷ []))
Numbered-append others n [] d h e = (e, tt)
Numbered-append others n (c ∷ ds) d h e = (h.0, Numbered-append others c.fill.engine_seq ds d h.1 e)

last_seq-append :
    (n : ℕ) (ds : List FillDelivery) (d : FillDelivery)
    → last_seq n (ds ++ (d ∷ [])) ≡ d.fill.engine_seq
last_seq-append n [] d = refl
last_seq-append n (c ∷ ds) d = last_seq-append c.fill.engine_seq ds d

-- The fills so far, and the number that the engine has reached
record Counting (others : ℕ → ℕ) (n : ℕ) (m : Matching) : Type 0 where
  same_others : m.others ≡ others
  numbered : Numbered others n m.deliveries
  reached : m.seq ≡ last_seq n m.deliveries

trade-Counting :
    (side : Side) (others : ℕ → ℕ) (n : ℕ) (m : Matching) (resting : Order) (rest : List Order)
    → Counting others n m
    → Counting others n (trade side m resting rest)
unfolding trade
trade-Counting side others n m resting rest c = record {
  same_others = c.same_others;
  numbered =
      Numbered-append others n m.deliveries _ c.numbered (ap₂ add_seq c.same_others c.reached);
  reached = sym (last_seq-append n m.deliveries _);
}

-- The loop draws one number for each fill, in the order in which it makes them.
match_side-Counting :
    (side : Side) (market : Bool) (others : ℕ → ℕ) (n : ℕ) (m : Matching)
    → Counting others n m
    → Counting others n (match_side side market m)
unfolding match_side
match_side-Counting side market others n m h =
    match_loop_inv side market (Counting others n)
      (λ m' resting rest e t k. trade-Counting side others n m' resting rest k)
      (suc (length m.queue)) m h

-- A reply to a request that has `qty` to trade, when the engine's number was `seq`: whether it is
-- accepted or refused, what is refused has no fills, what is filled is at most the request's, in
-- positive amounts, and the acknowledgement and the fills have numbers that are drawn for them one after
-- another, with those of other requests in between.
pub record Answered (others : ℕ → ℕ) (seq : ℕ) (qty : ℕ) (r : Reply) : Type 0 where
  pub answer : (r.0.status ≡ accepted) ⊎ ((r.0.status ≡ rejected) × (r.1 ≡ []))
  pub at_most : filled r.1 ≤ qty
  pub amounts : All (λ (d : FillDelivery). 0 < d.fill.qty) r.1
  pub ack_seq : r.0.engine_seq ≡ (seq + others seq + 1) % 2 ^ 64
  pub fill_seqs : Numbered others r.0.engine_seq r.1

refused-Answered :
    (reason : String) (msg : NewOrder) (now qty : ℕ) (e : Engine)
    → Answered e.others e.seq qty (refuse reason msg now e).0
refused-Answered reason msg now qty e = record {
  answer = inr (refl, refl);
  at_most = omega arith;
  amounts = tt;
  ack_seq = refl;
  fill_seqs = tt;
}

reject_residual-answer :
    (ack : Ack) (ds : List FillDelivery)
    → ack.status ≡ accepted
    → ((reject_residual ack ds).status ≡ accepted)
      ⊎ (((reject_residual ack ds).status ≡ rejected) × (ds ≡ []))
unfolding reject_residual
reject_residual-answer ack [] h = inr (refl, refl)
reject_residual-answer ack (d ∷ ds) h = inl h

reject_residual-seq :
    (ack : Ack) (ds : List FillDelivery) → (reject_residual ack ds).engine_seq ≡ ack.engine_seq
unfolding reject_residual
reject_residual-seq ack [] = refl
reject_residual-seq ack (d ∷ ds) = refl

settle-Answered :
    (side : Side) (market : Bool) (symbol : String) (ack : Ack) (others : ℕ → ℕ) (n seq qty : ℕ)
    (own : List Order) (m : Matching) (e : Engine)
    → ack.status ≡ accepted
    → ack.engine_seq ≡ (seq + others seq + 1) % 2 ^ 64
    → filled m.deliveries ≤ qty
    → All (λ (d : FillDelivery). 0 < d.fill.qty) m.deliveries
    → Numbered others ack.engine_seq m.deliveries
    → Answered others seq qty (settle side market symbol ack n own m e).0
unfolding settle
settle-Answered side market symbol ack others n seq qty own m e s k f a num =
    elim (Bool-cases
      ((ltb 0 m.active.qty && not market) && not (ltb (length own) max_resting_per_symbol))) [
        | inl d ↦ rw d (record {
          answer = reject_residual-answer ack m.deliveries s;
          at_most = f;
          amounts = a;
          ack_seq = reject_residual-seq ack m.deliveries ∙ k;
          fill_seqs =
              subst (λ k'. Numbered others k' m.deliveries)
                (sym (reject_residual-seq ack m.deliveries)) num;
        })
        | inr d ↦
            rw d (record { answer = inl s; at_most = f; amounts = a; ack_seq = k; fill_seqs = num })
      ]

All-amounts :
    (side : Side) (market : Bool) (a : Order) (ds : List FillDelivery)
    → All (FillOk side market a) ds
    → All (λ (d : FillDelivery). 0 < d.fill.qty) ds
All-amounts side market a [] h = tt
All-amounts side market a (d ∷ ds) h = (h.0.0, All-amounts side market a ds h.1)

All-true : (s : List Order) → All (λ x. Unit {0}) s
All-true [] = tt
All-true (x ∷ s) = (tt, All-true s)

-- Matching, from a book that is in order.
module _ (side : Side) (market : Bool) (symbol : String) (msg : NewOrder) (owner : Option Client)
    (addr : ℕ) (e : Engine) (ok : EngineOk e) where
  abbrev pub book_of : Book
  book_of = book_for symbol e.books

  abbrev pub start_of : Matching
  start_of =
      start_match (active_order side symbol msg addr (next_seq book_of.insert_seq) owner) book_of e

  pub match_side_of-Matched :
      Matched side market
        (is_broken e)
        (λ x. Unit {0})
        (λ o q h. tt)
        start_of
        (match_side side market start_of)
  match_side_of-Matched =
      let o =
        other_side-SideOk (is_broken e) side book_of
          (book_for-BookOk (is_broken e) symbol e.books ok) in
      match_side-Matched side market (is_broken e) (λ x. Unit {0}) (λ o q h. tt) start_of o.positive
        o.ladder (All-true _) tt

  enter-Answered :
      (now : ℕ)
      → Answered e.others e.seq (pos_part msg.qty) (enter side market symbol msg owner addr now e).0
  unfolding enter
  enter-Answered now =
      let m = match_side side market start_of in
      settle-Answered side market symbol _ e.others _ e.seq (pos_part msg.qty) _ m e refl refl
        (omega (arith, match_side_of-Matched.active_left))
        (All-amounts side market start_of.active m.deliveries match_side_of-Matched.fills_ok)
        (match_side-Counting side market e.others (add_seq e.others e.seq) start_of
          (record { same_others = refl; numbered = tt; reached = refl })).numbered

admit-Answered :
    (to_upper : String → String) (len : String → ℕ) (side : Option Side) (msg : NewOrder)
    (owner : Option Client) (addr now : ℕ) (e : Engine)
    → EngineOk e
    → Answered e.others e.seq (pos_part msg.qty) (admit to_upper len side msg owner addr now e).0
admit-Answered to_upper len none msg owner addr now e ok =
    refused-Answered "invalid_order" msg now _ e
admit-Answered to_upper len (some side) msg owner addr now e ok =
    elim (Bool-cases (is_invalid to_upper len msg)) [
      | inl i ↦ rw (i, admit) (refused-Answered "invalid_order" msg now _ e)
      | inr i ↦
          rw (i, admit)
            (elim (Bool-cases (is_too_long to_upper len msg)) [
              | inl t ↦ rw (t, admit) (refused-Answered "field_too_long" msg now _ e)
              | inr t ↦ rw (t, admit) (enter-Answered side _ _ msg owner addr e ok now)
            ])
    ]

-- Where the books are in order, every new order is either accepted or rejected with no fills at all;
-- its fills are of positive amounts that add up to no more than its quantity, and the acknowledgement
-- and each fill have a number of the engine's counter that was drawn for it alone, in their order,
-- however often other requests draw in between.
pub process_new-Answered :
    (to_upper : String → String) (len : String → ℕ) (msg : NewOrder) (owner : Option Client)
    (addr now : ℕ) (e : Engine)
    → EngineOk e
    → Answered e.others e.seq (pos_part msg.qty) (process_new to_upper len msg owner addr now e).0
unfolding process_new
process_new-Answered to_upper len msg owner addr now e ok =
    admit-Answered to_upper len (side_of (to_upper msg.side)) msg owner addr now e ok
