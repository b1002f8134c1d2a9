-- ===== src/Leaderboard/Polls.antt =====
-- services/leaderboard-api/internal/redisboard/redisboard.go: the board over the calls of its poller and
-- its clients.
use quant_dominater.Base.{
  Option, some, ◌⊎◌, sym, ap, subst, ℕ, ◌+◌, ◌-◌, ◌*◌, ◌^◌, ◌≤◌, ◌<◌, Bool, true, false, none, List,
  [], ◌∷◌, ◌≡◌, inl, inr, refl, Bool-cases, All, leb, ◌==◌, arith, if◌then◌else◌,
}
use quant_dominater.Base.Int.{pos, leb_ℤ, mul_ℤ, int64}
use quant_dominater.Leaderboard.Board.{Channel, offer, Entry, all_finite, broadcast, read_from}
use quant_dominater.Leaderboard.Results.{
  Bounded, offer-Bounded, broadcast-Bounded, without-Bounded, read_from-Bounded,
}
use quant_dominater.Leaderboard.Redis.{
  Texts, Redis, Reads, RedisBoard, global_zset, entries_of, with_team, written, is_changed,
  refresh_with, refresh, upsert, payload_or_empty, subscribe, unsubscribe, ready,
}

-- `New`, before its first refresh
abbrev pub new_board : RedisBoard
new_board = record { snapshot = []; last_payload = none; subscribers = []; last_refresh = 0 }

-- What a new subscriber is given is the snapshot, all of which encodes, and no channel holds more than
-- it can.
pub record RedisBoardOk (b : RedisBoard) : Type 0 where
  pub current : payload_or_empty b.last_payload ≡ b.snapshot
  pub encodes : all_finite b.snapshot ≡ true
  pub bounded : Bounded b.subscribers

int64_small : (n : ℕ) → n < 2 ^ 63 → int64 (pos n) ≡ pos n
int64_small n h = ground arith

mul_pos : (m n : ℕ) → mul_ℤ (pos m) (pos n) ≡ pos (m * n)
mul_pos m n = ground arith

limit :
    (last now interval : ℕ)
    → 0 < last
    → last ≤ now
    → 3 * interval < 2 ^ 63
    → (if last == 0 then false else leb_ℤ (pos (now - last)) (int64 (mul_ℤ (pos 3) (pos interval))))
      ≡ leb now (last + 3 * interval)
limit last now interval set past small =
    rw (mul_pos 3 interval, int64_small (3 * interval) small) (by_cases)
  where
    by_cases :
        (if last == 0 then false else leb_ℤ (pos (now - last)) (pos (3 * interval)))
        ≡ leb now (last + 3 * interval)
    by_cases = ground arith

module _ (t : Texts) (redis : Redis) (bytes_equal : List Entry → List Entry → Bool) where
  -- The calls of the poller and of the board's clients; what redis holds at a poll is anything, since
  -- the score-engine writes to it.
  pub data Act : Type 0 where
    polls : Reads → redis.Data → Act
    upserts : Bool → (redis.Data → redis.Data) → Reads → Entry → redis.Data → Act
    subscribes unsubscribes reads : ℕ → Act

  unfoldable pub act : Act → RedisBoard → RedisBoard
  unfolding refresh upsert subscribe unsubscribe
  act (polls r d) b = refresh t redis bytes_equal r d b
  act (upserts fails others r e d) b =
      (upsert t redis bytes_equal fails others r (λ b'. b') e d b).2
  act (subscribes a) b = subscribe a b
  act (unsubscribes a) b = unsubscribe a b
  act (reads a) b = record b { subscribers = read_from a b.subscribers }

  unfoldable pub act_all : List Act → RedisBoard → RedisBoard
  unfolding act
  act_all [] b = b
  act_all (x ∷ xs) b = act_all xs (act x b)

  refresh_with-RedisBoardOk :
      (now : ℕ) (entries : List Entry) (b : RedisBoard)
      → RedisBoardOk b
      → RedisBoardOk (refresh_with t redis bytes_equal now entries b)
  refresh_with-RedisBoardOk now entries b ok = elim (Bool-cases (all_finite entries)) [
    | inl f ↦
        rw (f, refresh_with)
          (record {
            current = refl;
            encodes = f;
            bounded = sent (is_changed t redis bytes_equal entries b.last_payload);
          })
    | inr f ↦ rw (f, refresh_with) ok
  ]
    where
      sent : (c : Bool) → Bounded (if c then broadcast entries b.subscribers else b.subscribers)
      sent true = broadcast-Bounded entries b.subscribers ok.bounded
      sent false = ok.bounded

  refresh-RedisBoardOk :
      (r : Reads) (d : redis.Data) (b : RedisBoard)
      → RedisBoardOk b
      → RedisBoardOk (refresh t redis bytes_equal r d b)
  unfolding refresh
  refresh-RedisBoardOk r d b ok = elim (Bool-cases r.ranking_fails) [
    | inl f ↦ rw (f, refresh) ok
    | inr f ↦
        rw (f, refresh)
          (refresh_with-RedisBoardOk r.now (entries_of t redis r d (redis.ranking global_zset d)) b
            ok)
  ]

  act-RedisBoardOk : (x : Act) (b : RedisBoard) → RedisBoardOk b → RedisBoardOk (act x b)
  unfolding act upsert subscribe unsubscribe
  act-RedisBoardOk (polls r d) b ok = refresh-RedisBoardOk r d b ok
  act-RedisBoardOk (upserts true others r e d) b ok = ok
  act-RedisBoardOk (upserts false others r e d) b ok =
      refresh-RedisBoardOk r (others (written t redis (with_team e) d)) b ok
  act-RedisBoardOk (subscribes a) b ok = record {
    current = ok.current;
    encodes = ok.encodes;
    bounded = (
      offer-Bounded (payload_or_empty b.last_payload) (record { addr = a; buffer = [] })
          (omega arith),
      ok.bounded,
    );
  }
  act-RedisBoardOk (unsubscribes a) b ok = record {
    current = ok.current;
    encodes = ok.encodes;
    bounded = without-Bounded a b.subscribers ok.bounded;
  }
  act-RedisBoardOk (reads a) b ok = record {
    current = ok.current;
    encodes = ok.encodes;
    bounded = read_from-Bounded a b.subscribers ok.bounded;
  }

  act_all-Ok : (xs : List Act) (b : RedisBoard) → RedisBoardOk b → RedisBoardOk (act_all xs b)
  unfolding act_all
  act_all-Ok [] b ok = ok
  act_all-Ok (x ∷ xs) b ok = act_all-Ok xs (act x b) (act-RedisBoardOk x b ok)

  act_all-RedisBoardOk : (xs : List Act) → RedisBoardOk (act_all xs new_board)
  act_all-RedisBoardOk xs =
      act_all-Ok xs new_board (record { current = refl; encodes = refl; bounded = tt })

  -- The channel of a subscriber that came when the snapshot was `old`, one refresh later: it has the
  -- old snapshot, and behind it the new one, unless that is encoded alike.
  abbrev pub Follows : ℕ → List Entry → List Entry → List Channel → Type 0
  Follows addr old new channels =
      (buffer : List (List Entry)) × (rest : List Channel) × (channels
        ≡ (record { addr = addr; buffer = buffer }) ∷ rest)
      × (((buffer ≡ old ∷ []) × ((new ≡ old) ⊎ (bytes_equal new old ≡ true)))
          ⊎ (buffer ≡ old ∷ new ∷ []))

  refreshed-Follows :
      (addr : ℕ) (old new : List Entry) (last : Option (List Entry)) (rest : List Channel)
      → payload_or_empty last ≡ old
      → let channels = (record { addr = addr; buffer = old ∷ [] }) ∷ rest in
        Follows addr old new
          (if is_changed t redis bytes_equal new last then broadcast new channels else channels)
  unfolding broadcast offer
  refreshed-Follows addr old new none rest h = (old ∷ new ∷ [], broadcast new rest, refl, inr refl)
  refreshed-Follows addr old new (some last) rest h = elim (Bool-cases (bytes_equal new last)) [
    | inl e ↦
        rw (e, is_changed)
          (old ∷ [], rest, refl, inl (refl, inr (subst (λ x. bytes_equal new x ≡ true) h e)))
    | inr e ↦ rw (e, is_changed) (old ∷ new ∷ [], broadcast new rest, refl, inr refl)
  ]

  refresh_with-Follows :
      (addr now : ℕ) (entries : List Entry) (b : RedisBoard)
      → payload_or_empty b.last_payload ≡ b.snapshot
      → let b' = refresh_with t redis bytes_equal now entries (record b {
        subscribers = (record { addr = addr; buffer = b.snapshot ∷ [] }) ∷ b.subscribers;
      }) in
        Follows addr b.snapshot b'.snapshot b'.subscribers
  refresh_with-Follows addr now entries b h = elim (Bool-cases (all_finite entries)) [
    | inl f ↦
        rw (f, refresh_with)
          (refreshed-Follows addr b.snapshot entries b.last_payload b.subscribers h)
    | inr f ↦ rw (f, refresh_with) (b.snapshot ∷ [], b.subscribers, refl, inl (refl, inl refl))
  ]

  refresh-Follows :
      (addr : ℕ) (r : Reads) (d : redis.Data) (b : RedisBoard)
      → payload_or_empty b.last_payload ≡ b.snapshot
      → let b' = refresh t redis bytes_equal r d (record b {
        subscribers = (record { addr = addr; buffer = b.snapshot ∷ [] }) ∷ b.subscribers;
      }) in
        Follows addr b.snapshot b'.snapshot b'.subscribers
  unfolding refresh
  refresh-Follows addr r d b h = elim (Bool-cases r.ranking_fails) [
    | inl f ↦ rw (f, refresh) (b.snapshot ∷ [], b.subscribers, refl, inl (refl, inl refl))
    | inr f ↦
        rw (f, refresh)
          (refresh_with-Follows addr r.now (entries_of t redis r d (redis.ranking global_zset d)) b
            h)
  ]

  seeded :
      (addr : ℕ) (b : RedisBoard)
      → payload_or_empty b.last_payload ≡ b.snapshot
      → subscribe addr b ≡ record b {
        subscribers = (record { addr = addr; buffer = b.snapshot ∷ [] }) ∷ b.subscribers;
      }
  unfolding subscribe offer
  seeded addr b h =
      ap
        (λ (p : List Entry). record b {
          subscribers = (record { addr = addr; buffer = p ∷ [] }) ∷ b.subscribers;
        })
        h

  -- From a new board, over any sequence of polls, upserts, subscriptions and reads, whatever redis
  -- holds and whichever of its calls fail: every number of the snapshot that `List` returns can be
  -- encoded, and a new subscriber's channel holds that snapshot. After one more refresh, of any
  -- answers, the channel holds the new snapshot behind it, unless that is encoded alike.
  pub act_all-subscribe :
      (xs : List Act) (addr : ℕ) (r : Reads) (d : redis.Data)
      → let b = act_all xs new_board in
        let b' = refresh t redis bytes_equal r d (subscribe addr b) in
        (all_finite b.snapshot ≡ true)
        × (subscribe addr b ≡ record b {
          subscribers = (record { addr = addr; buffer = b.snapshot ∷ [] }) ∷ b.subscribers;
        })
        × Follows addr b.snapshot b'.snapshot b'.subscribers
  act_all-subscribe xs addr r d =
      let ok = act_all-RedisBoardOk xs in
      let s = seeded addr (act_all xs new_board) ok.current in
      (
        ok.encodes,
        s,
        subst
            (λ (x : RedisBoard).
              let b' = refresh t redis bytes_equal r d x in
              Follows addr (act_all xs new_board).snapshot b'.snapshot b'.subscribers)
            (sym s) (refresh-Follows addr r d (act_all xs new_board) ok.current),
      )

  unfoldable pub poll_all : List (Reads × redis.Data) → RedisBoard → RedisBoard
  unfolding refresh
  poll_all [] b = b
  poll_all ((r, d) ∷ ps) b = poll_all ps (refresh t redis bytes_equal r d b)

  abbrev pub Outage : List (Reads × redis.Data) → Type 0
  Outage = All (λ (p : Reads × redis.Data). p.0.ranking_fails ≡ true)

  poll_all-Outage :
      (ps : List (Reads × redis.Data)) (b : RedisBoard) → Outage ps → poll_all ps b ≡ b
  unfolding poll_all refresh
  poll_all-Outage [] b down = refl
  poll_all-Outage ((r, d) ∷ ps) b down = rw (down.0, refresh) (poll_all-Outage ps b down.1)

  -- After a poll that redis answers and whose entries encode, and any number of polls that redis does
  -- not answer: the board serves the snapshot of that poll, and it is ready up to three intervals after
  -- that poll and not later.
  pub poll_all-ready :
      (r : Reads) (d : redis.Data) (ps : List (Reads × redis.Data)) (b : RedisBoard)
      (interval now : ℕ)
      → r.ranking_fails ≡ false
      → all_finite (entries_of t redis r d (redis.ranking global_zset d)) ≡ true
      → Outage ps
      → 0 < r.now
      → r.now ≤ now
      → 3 * interval < 2 ^ 63
      → let b' = poll_all ((r, d) ∷ ps) b in
        (b'.snapshot ≡ entries_of t redis r d (redis.ranking global_zset d))
        × (ready (pos interval) now b' ≡ leb now (r.now + 3 * interval))
  unfolding poll_all refresh ready
  poll_all-ready r d ps b interval now up fine down set past small =
      rw (poll_all-Outage ps (refresh t redis bytes_equal r d b) down)
        (rw (up, refresh) (rw (fine, refresh_with) (refl, limit r.now now interval set past small)))
