-- ===== src/Leaderboard/Trials.antt =====
-- Runs of the board that polls redis, at concrete inputs.
use mathlib.Core.List.{Memᴰ}
use quant_dominater.Base.{
  ◌⊎◌, ℕ, ◌+◌, ◌*◌, String, Bool, true, false, none, List, [], ◌∷◌, ◌++◌, ◌≡◌, refl, str_eq,
  str_eq_self, Bool-cases, inl, inr, leb, if◌then◌else◌, arith,
}
use quant_dominater.Base.Int.{pos}
use quant_dominater.Base.Float.{Float64}
use quant_dominater.Leaderboard.Board.{Entry, offer, broadcast, all_finite}
use quant_dominater.Leaderboard.Tests.{an_entry}
use quant_dominater.Leaderboard.Redis.{
  Card, field, Redis, Reads, RedisBoard, entries_of, with_team, refresh, upsert, subscribe,
  unsubscribe, ready, stale_age_ms,
}
use quant_dominater.Leaderboard.Codec.{in_strokes, in_strokes-TextLaws}
use quant_dominater.Leaderboard.Scorecards.{
  has_field, RedisLaws, kept, read_entries, at_refresh, upsert-kept,
}
use quant_dominater.Leaderboard.Polls.{
  new_board, Follows, Act, act, act_all, act_all-subscribe, poll_all, poll_all-ready,
}

program : Unit {0}
unfolding refresh upsert subscribe unsubscribe ready stale_age_ms act act_all poll_all offer
    broadcast
program = tt

-- A redis in memory, with one set and its hashes.
abbrev memory : Redis
memory = record {
  Data = List (String × Float64) × (String → Card);
  ranking = λ zset d. d.0;
  card = λ key d. d.1 key;
  write = λ zset team score key card d.
      ((team, score) ∷ d.0, λ k. if str_eq key k then card ++ d.1 k else d.1 k);
}

field-append :
    (name : String) (card rest : Card)
    → has_field name card ≡ true
    → field name (card ++ rest) ≡ field name card
field-append name [] rest = λ h. absurd cc
field-append name ((k, v) ∷ card) rest = elim (Bool-cases (str_eq k name)) [
  | inl e ↦ rw (e, field, has_field) (λ h. refl)
  | inr e ↦ rw (e, field, has_field) (field-append name card rest)
]

memory-RedisLaws : RedisLaws memory
memory-RedisLaws = record {
  adds = λ zset team score key card d f. Memᴰ.head refl;
  sets = λ zset team score key card d name h.
      rw (str_eq_self key) (field-append name card (d.1 key) h);
}

abbrev nothing : List (String × Float64) × (String → Card)
nothing = ([], λ key. [])

abbrev at : ℕ → Reads
at time = record {
  ranking_fails = false;
  card_fails = λ team. false;
  stamp = λ team. time;
  now = time;
}

abbrev down : Reads
down = record { ranking_fails = true; card_fails = λ team. false; stamp = λ team. 0; now = 0 }

abbrev never_equal : List Entry → List Entry → Bool
never_equal xs ys = false

abbrev alone : List (String × Float64) × (String → Card) → List (String × Float64) × (String → Card)
alone d = d

abbrev undisturbed : RedisBoard → RedisBoard
undisturbed b = b

upsert-kept_example :
    let reply =
      (upsert in_strokes memory never_equal false alone
        (at 50)
        undisturbed
        (an_entry "r1" 7)
        nothing
        new_board).0 in
    let entries = read_entries in_strokes in_strokes-TextLaws memory memory-RedisLaws (at 50) (
      at_refresh in_strokes in_strokes-TextLaws memory memory-RedisLaws alone
        (an_entry "r1" 7)
        nothing) in
    (reply.1 ≡ none)
    × ((((false ≡ true) ⊎ (all_finite entries ≡ false)) × (reply.0 ≡ []))
        ⊎ ((false ≡ false)
            × (all_finite entries ≡ true)
            × Memᴰ (kept 50 (with_team (an_entry "r1" 7))) reply.0))
upsert-kept_example =
    upsert-kept in_strokes in_strokes-TextLaws memory memory-RedisLaws never_equal alone (at 50)
      undisturbed (an_entry "r1" 7) nothing new_board
      (record { named = refl; finite = refl; orders = refl; acks = refl; timeouts = refl })
      (record { rank = λ m. m; card_stays = refl }) refl (λ x. refl)

-- A refresh that fails behind the write: no error, and the old snapshot.
stale_reply :
    (upsert in_strokes memory never_equal false alone down undisturbed
      (an_entry "r1" 7)
      nothing
      new_board).0
    ≡ ([], none)
unfolding program
stale_reply = refl

abbrev calls : List (Act in_strokes memory never_equal)
calls =
    Act.subscribes 3
    ∷ Act.upserts false alone (at 50) (an_entry "r1" 7) nothing
    ∷ Act.reads 3
    ∷ Act.polls down nothing
    ∷ Act.upserts true alone (at 60) (an_entry "r2" 7) nothing
    ∷ Act.unsubscribes 3
    ∷ []

act_all-subscribe_example :
    let b = act_all in_strokes memory never_equal calls new_board in
    let b' = refresh in_strokes memory never_equal (at 70) nothing (subscribe 4 b) in
    (all_finite b.snapshot ≡ true)
    × (subscribe 4 b ≡ record b {
      subscribers = (record { addr = 4; buffer = b.snapshot ∷ [] }) ∷ b.subscribers;
    })
    × Follows in_strokes memory never_equal 4 b.snapshot b'.snapshot b'.subscribers
act_all-subscribe_example = act_all-subscribe in_strokes memory never_equal calls 4 (at 70) nothing

abbrev one_team : List (String × Float64) × (String → Card)
one_team = (("team", 7) ∷ [], λ key. [])

-- Half a second between two polls; the third poll on end gets no answer.
poll_all-ready_example :
    let b =
      poll_all in_strokes memory never_equal
        ((at 1000, one_team) ∷ (down, one_team) ∷ (down, one_team) ∷ [])
        new_board in
    (b.snapshot ≡ entries_of in_strokes memory (at 1000) one_team (("team", 7) ∷ []))
    × (ready (pos 500000000) 1500000000 b ≡ leb 1500000000 (1000 + 3 * 500000000))
poll_all-ready_example =
    poll_all-ready in_strokes memory never_equal (at 1000) one_team
      ((down, one_team) ∷ (down, one_team) ∷ []) new_board 500000000 1500000000 refl refl
      (refl, (refl, tt)) (omega arith) (omega arith) (omega arith)

-- A board that was never refreshed is not ready.
never_ready : (ready (pos 500000000) 7 new_board ≡ false)
unfolding program
never_ready = refl
