-- ===== src/Leaderboard/Results.antt =====
-- services/leaderboard-api/internal/board/board.go: what the board holds over any sequence of calls.
use mathlib.Core.Option
use quant_dominater.Base.{
  ℕ, ◌≤◌, String, Bool, true, false, Option, none, some, List, [], ◌∷◌, ◌++◌, ◌≡◌, inl, inr, refl,
  subst, str_eq, str_eq_self, str_eq-cases, length, length-append, ltb, ◌==◌, if◌then◌else◌, All,
  arith, Bool-cases,
}
use quant_dominater.Leaderboard.Board.{
  Entry, Entries, Channel, BoardFile, missing, undecodable, holds, BoardError, Board, put, values,
  all_finite, channel_capacity, offer, broadcast, completed, upsert_checked, upsert, subscribe,
  without, unsubscribe, tail_of, read_from, fill_map, new_board,
}

-- `b.entries[id]`
unfoldable pub get : String → Entries → Option Entry
get id [] = none
get id ((k, e) ∷ es) = if str_eq k id then some e else get id es

get-put_self : (id : String) (e : Entry) (es : Entries) → get id (put id e es) ≡ some e
unfolding get put
get-put_self id e [] = rw (str_eq_self id, get) refl
get-put_self id e ((k, d) ∷ es) = elim (Bool-cases (str_eq k id)) [
  | inl t ↦ rw (t, put) (rw (t, get) refl)
  | inr t ↦ rw (t, put) (rw (t, get) (get-put_self id e es))
]

get-put_other :
    (id j : String) (e : Entry) (es : Entries)
    → str_eq id j ≡ false
    → get j (put id e es) ≡ get j es
unfolding get put
get-put_other id j e [] h = rw (h, get) refl
get-put_other id j e ((k, d) ∷ es) h = elim (str_eq-cases k id) [
  | inl (t, p) ↦ rw (t, put) (rw (p, h, get) refl)
  | inr t ↦ elim (Bool-cases (str_eq k j)) [
    | inl u ↦ rw (t, put) (rw (u, get) refl)
    | inr u ↦ rw (t, put) (rw (u, get) (get-put_other id j e es h))
  ]
]

-- The results of the board after an upsert of a run with an id: the run's entry is the one given, with
-- its defaults; every other run's is as before; and this holds whether or not the file could be written
-- and whatever the subscribers do.
pub upsert-get :
    (arrange : List Entry → List Entry) (fs : Option BoardError) (now : ℕ) (e : Entry) (b : Board)
    → str_eq e.run_id "" ≡ false
    → let b' = (upsert arrange fs now e b).1 in
      (get e.run_id b'.entries ≡ some (completed now e))
      × ((j : String) → str_eq e.run_id j ≡ false → get j b'.entries ≡ get j b.entries)
unfolding upsert
upsert-get arrange fs now e b h =
    rw (h, upsert)
      (
        get-put_self e.run_id (completed now e) b.entries,
        λ j other. get-put_other e.run_id j (completed now e) b.entries other,
      )

-- An entry stands under its own run's id, which is not empty, and no channel holds more than it can.
pub record BoardOk (b : Board) : Type 0 where
  pub keyed : All (λ (p : String × Entry). (p.0 ≡ p.1.run_id) × (str_eq p.0 "" ≡ false)) b.entries
  pub bounded : All (λ (c : Channel). length c.buffer ≤ channel_capacity) b.subscribers

abbrev Keyed : Entries → Type 0
Keyed es = All (λ (p : String × Entry). (p.0 ≡ p.1.run_id) × (str_eq p.0 "" ≡ false)) es

abbrev pub Bounded : List Channel → Type 0
Bounded cs = All (λ (c : Channel). length c.buffer ≤ channel_capacity) cs

put-Keyed :
    (e : Entry) (es : Entries) → str_eq e.run_id "" ≡ false → Keyed es → Keyed (put e.run_id e es)
unfolding put
put-Keyed e [] h k = ((refl, h), tt)
put-Keyed e ((j, d) ∷ es) h k = elim (str_eq-cases j e.run_id) [
  | inl (t, p) ↦ rw (t, put) ((p, k.0.1), k.1)
  | inr t ↦ rw (t, put) (k.0, put-Keyed e es h k.1)
]

pub offer-Bounded :
    (p : List Entry) (c : Channel)
    → length c.buffer ≤ channel_capacity
    → length (offer p c).buffer ≤ channel_capacity
unfolding offer
offer-Bounded p c h = elim (Bool-cases (ltb (length c.buffer) channel_capacity)) [
  | inl t ↦ rw (t, offer) (longer t)
  | inr t ↦ rw (t, offer) h
]
  where
    longer :
        ltb (length c.buffer) channel_capacity ≡ true
        → length (c.buffer ++ (p ∷ [])) ≤ channel_capacity
    longer t = let l = length-append c.buffer (p ∷ []) in ground arith

pub broadcast-Bounded : (p : List Entry) (cs : List Channel) → Bounded cs → Bounded (broadcast p cs)
unfolding broadcast
broadcast-Bounded p [] h = tt
broadcast-Bounded p (c ∷ cs) h = (offer-Bounded p c h.0, broadcast-Bounded p cs h.1)

pub without-Bounded : (a : ℕ) (cs : List Channel) → Bounded cs → Bounded (without a cs)
without-Bounded a [] h = tt
without-Bounded a (c ∷ cs) h = elim (Bool-cases (c.addr == a)) [
  | inl t ↦ rw (t, without) (without-Bounded a cs h.1)
  | inr t ↦ rw (t, without) (h.0, without-Bounded a cs h.1)
]

length-tail_of : (ps : List (List Entry)) → length (tail_of ps) ≤ length ps
length-tail_of [] = omega arith
length-tail_of (p ∷ ps) = omega arith

pub read_from-Bounded : (a : ℕ) (cs : List Channel) → Bounded cs → Bounded (read_from a cs)
read_from-Bounded a [] h = tt
read_from-Bounded a (c ∷ cs) h = elim (Bool-cases (c.addr == a)) [
  | inl t ↦
      rw (t, read_from) (omega (arith, length-tail_of c.buffer, h.0), read_from-Bounded a cs h.1)
  | inr t ↦ rw (t, read_from) (h.0, read_from-Bounded a cs h.1)
]

fill_map-Keyed : (es : List Entry) (m : Entries) → Keyed m → Keyed (fill_map es m)
fill_map-Keyed [] m h = h
fill_map-Keyed (e ∷ es) m h = elim (Bool-cases (str_eq e.run_id "")) [
  | inl t ↦ rw (t, fill_map) (fill_map-Keyed es m h)
  | inr t ↦ rw (t, fill_map) (fill_map-Keyed es _ (put-Keyed e m t h))
]

-- The calls of the board's clients.
pub data Act : Type 0 where
  upserts : Option BoardError → ℕ → Entry → Act
  subscribes unsubscribes reads : ℕ → Act

module _ (arrange : List Entry → List Entry) where
  unfoldable pub act : Act → Board → Board
  unfolding upsert subscribe unsubscribe
  act (upserts fs now e) b = (upsert arrange fs now e b).1
  act (subscribes a) b = subscribe arrange a b
  act (unsubscribes a) b = unsubscribe a b
  act (reads a) b = record b { subscribers = read_from a b.subscribers }

  unfoldable pub act_all : List Act → Board → Board
  unfolding act
  act_all [] b = b
  act_all (x ∷ xs) b = act_all xs (act x b)

  upsert_checked-BoardOk :
      (fs : Option BoardError) (e : Entry) (b : Board)
      → str_eq e.run_id "" ≡ false
      → BoardOk b
      → BoardOk (upsert_checked arrange fs e b).1
  upsert_checked-BoardOk fs e b h ok = record {
    keyed = put-Keyed e b.entries h ok.keyed;
    bounded = sent (all_finite (arrange (values (put e.run_id e b.entries))));
  }
    where
      sent :
          (t : Bool)
          → Bounded (
              if t
              then broadcast (arrange (values (put e.run_id e b.entries))) b.subscribers
              else b.subscribers)
      sent true = broadcast-Bounded _ b.subscribers ok.bounded
      sent false = ok.bounded

  upsert-BoardOk :
      (fs : Option BoardError) (now : ℕ) (e : Entry) (b : Board)
      → BoardOk b
      → BoardOk (upsert arrange fs now e b).1
  unfolding upsert
  upsert-BoardOk fs now e b ok = elim (Bool-cases (str_eq e.run_id "")) [
    | inl t ↦ rw (t, upsert) ok
    | inr t ↦ rw (t, upsert) (upsert_checked-BoardOk fs (completed now e) b t ok)
  ]

  act-BoardOk : (x : Act) (b : Board) → BoardOk b → BoardOk (act x b)
  unfolding act upsert subscribe unsubscribe
  act-BoardOk (upserts fs now e) b ok = upsert-BoardOk fs now e b ok
  act-BoardOk (subscribes a) b ok = record {
    keyed = ok.keyed;
    bounded = (
      offer-Bounded
          (if all_finite (arrange (values b.entries)) then arrange (values b.entries) else [])
          (record { addr = a; buffer = [] }) (omega arith),
      ok.bounded,
    );
  }
  act-BoardOk (unsubscribes a) b ok = record {
    keyed = ok.keyed;
    bounded = without-Bounded a b.subscribers ok.bounded;
  }
  act-BoardOk (reads a) b ok = record {
    keyed = ok.keyed;
    bounded = read_from-Bounded a b.subscribers ok.bounded;
  }

  act_all-from : (xs : List Act) (b : Board) → BoardOk b → BoardOk (act_all xs b)
  unfolding act_all
  act_all-from [] b ok = ok
  act_all-from (x ∷ xs) b ok = act_all-from xs (act x b) (act-BoardOk x b ok)

  new_board-BoardOk : (file : BoardFile) (b : Board) → new_board file ≡ some b → BoardOk b
  unfolding new_board
  new_board-BoardOk missing b h =
      subst BoardOk (Option.some_inj.0 h) (record { keyed = tt; bounded = tt })
  new_board-BoardOk undecodable b h = absurd cc
  new_board-BoardOk (holds es) b h =
      subst BoardOk (Option.some_inj.0 h) (record { keyed = fill_map-Keyed es [] tt; bounded = tt })

  -- From any file that the board starts from, and whatever calls follow in any order: each entry stands
  -- under its own run's id, which is not empty, and no subscriber's channel holds more than its capacity.
  pub act_all-BoardOk :
      (file : BoardFile) (b : Board) (xs : List Act)
      → new_board file ≡ some b
      → BoardOk (act_all xs b)
  act_all-BoardOk file b xs h = act_all-from xs b (new_board-BoardOk file b h)
