-- ===== src/Leaderboard/Scorecards.antt =====
-- services/leaderboard-api/internal/redisboard/redisboard.go: what the board keeps of an upserted entry.
use mathlib.Core.List.{Memᴰ}
use quant_dominater.Base.{
  ◌⊎◌, inl, inr, Bool-cases, ℕ, String, Bool, true, false, ◌&&◌, none, some, List, [], ◌∷◌, ◌≡◌,
  refl, ap, sym, ◌∙◌, subst, str_eq, if◌then◌else◌, All,
}
use quant_dominater.Base.Int.{ℤ, pos, int64}
use quant_dominater.Base.Float.{Float64, is_finite}
use quant_dominater.Leaderboard.Board.{Entry, all_finite, entry_finite}
use quant_dominater.Leaderboard.Redis.{
  Card, field, Texts, Redis, Reads, RedisBoard, global_zset, scorecard_key, bool_to_int, blank,
  atof, apply_scorecard, with_card, scorecard, stamped, entry_of, entries_of, with_team, written,
  refresh_with, refresh, upsert,
}

abbrev pub has_field : String → Card → Bool
has_field name [] = false
has_field name ((k, v) ∷ card) = if str_eq k name then true else has_field name card

-- The number that a text says is read back: an int64, and a finite float.
pub record TextLaws (t : Texts) : Type 0 where
  pub int_text : (n : ℤ) → int64 n ≡ n → t.to_int (t.of_int n) ≡ n
  pub float_text : (x : Float64) → is_finite x ≡ true → t.to_float (t.of_float x) ≡ some x
  pub float_nonempty : (x : Float64) → str_eq (t.of_float x) "" ≡ false
  pub one_text : t.of_int (pos 1) ≡ "1"
  pub zero_text : t.of_int (pos 0) ≡ "0"

-- ZADD puts the member with its score into the set, and HSET sets the fields.
pub record RedisLaws (redis : Redis) : Type 0 where
  pub adds :
      (zset team : String) (score : Float64) (key : String) (card : Card) (d : redis.Data)
      → is_finite score ≡ true
      → Memᴰ (team, score) (redis.ranking zset (redis.write zset team score key card d))
  pub sets :
      (zset team : String) (score : Float64) (key : String) (card : Card) (d : redis.Data)
      (name : String)
      → has_field name card ≡ true
      → field name (redis.card key (redis.write zset team score key card d)) ≡ field name card

-- What the scorecard has no field for is lost, and the time is that of the read.
abbrev pub kept : ℕ → Entry → Entry
kept now e = record e {
  status = "";
  fills_received = pos 0;
  connect_errors = pos 0;
  fills_checked = pos 0;
  correctness_gate = "";
  artifact_dir = "";
  updated_at = now;
}

-- An upserted entry: a named team, numbers that redis holds, counters that are int64.
pub record Storable (e : Entry) : Type 0 where
  pub named : str_eq e.team_id "" ≡ false
  pub finite : entry_finite e ≡ true
  pub orders : int64 e.orders_sent ≡ e.orders_sent
  pub acks : int64 e.acks_received ≡ e.acks_received
  pub timeouts : int64 e.timeouts ≡ e.timeouts

and_true : (a b : Bool) → (a && b) ≡ true → (a ≡ true) × (b ≡ true)
and_true true b h = (refl, h)
and_true false b h = absurd cc

-- Each of the first numbers is finite, and the rest is.
abbrev finite_up_to : List Float64 → Bool
finite_up_to [] = true
finite_up_to (x ∷ xs) = finite_up_to xs && is_finite x

finite_at :
    (xs : List Float64) → finite_up_to xs ≡ true → All (λ (x : Float64). is_finite x ≡ true) xs
finite_at [] h = tt
finite_at (x ∷ xs) h =
    let (rest, here) = and_true (finite_up_to xs) (is_finite x) h in (here, finite_at xs rest)

abbrev numbers : Entry → List Float64
numbers e =
    e.resource_score ∷ e.stability_score ∷ e.throughput_score ∷ e.latency_score ∷ e.peak_tps ∷ e.tps
    ∷ e.p999_ms ∷ e.p99_ms ∷ e.p90_ms ∷ e.p50_ms ∷ e.score ∷ []

module _ (t : Texts) (texts : TextLaws t) where
  atof-of_float :
      (x def : Float64) (s : String) → is_finite x ≡ true → s ≡ t.of_float x → atof t s def ≡ x
  atof-of_float x def s f h = rw (h, texts.float_nonempty x, texts.float_text x f, atof) refl

  valid_text : (b : Bool) → str_eq (t.of_int (bool_to_int b)) "1" ≡ b
  valid_text true = rw (texts.one_text) refl
  valid_text false = rw (texts.zero_text) refl

  read_back :
      (e : Entry) (card : Card)
      → Storable e
      → ((name : String)
          → has_field name (scorecard t e) ≡ true
          → field name card ≡ field name (scorecard t e))
      → apply_scorecard t (blank e.team_id e.score) card ≡ kept 0 e
  read_back e card ok same =
      let (
        f_rs,
        (f_ss, (f_ts, (f_ls, (f_pt, (f_t, (f_p999, (f_p99, (f_p90, (f_p50, (f_s, _)))))))))),
      ) =
        finite_at (numbers e) ok.finite in
      rw
        (
          same "run_id" refl,
          same "team_id" refl,
          ok.named,
          same "valid" refl,
          valid_text e.valid,
          same "failure_reason" refl,
          same "orders_sent" refl,
          texts.int_text e.orders_sent ok.orders,
          same "acks_received" refl,
          texts.int_text e.acks_received ok.acks,
          same "timeouts" refl,
          texts.int_text e.timeouts ok.timeouts,
          read e.score e.score "score" f_s refl refl,
          read e.latency_score 0 "latency_score" f_ls refl refl,
          read e.throughput_score 0 "throughput_score" f_ts refl refl,
          read e.stability_score 0 "stability_score" f_ss refl refl,
          read e.resource_score 0 "resource_score" f_rs refl refl,
          read e.p50_ms 0 "p50_ms" f_p50 refl refl,
          read e.p90_ms 0 "p90_ms" f_p90 refl refl,
          read e.p99_ms 0 "p99_ms" f_p99 refl refl,
          read e.p999_ms 0 "p999_ms" f_p999 refl refl,
          read e.tps 0 "tps" f_t refl refl,
          read e.peak_tps 0 "peak_tps" f_pt refl refl,
          apply_scorecard,
        )
        refl
    where
      read :
          (x def : Float64) (name : String)
          → is_finite x ≡ true
          → (h : has_field name (scorecard t e) ≡ true) → field name (scorecard t e) ≡ t.of_float x
          → atof t (field name card) def ≡ x
      read x def name f h g = atof-of_float x def (field name card) f (same name h ∙ g)

  score_finite : (e : Entry) → Storable e → is_finite e.score ≡ true
  score_finite e ok = (finite_at (numbers e) ok.finite).1.1.1.1.1.1.1.1.1.1.0

  with_card_full :
      (e : Entry) (card : Card) (name : String)
      → str_eq (field name card) "" ≡ false
      → with_card t e card ≡ apply_scorecard t e card
  with_card_full e [] name h = absurd cc
  with_card_full e (f ∷ card) name h = refl

  Memᴰ-entries_of :
      (redis : Redis) (reads : Reads) (d : redis.Data) (z : String × Float64)
      (zs : List (String × Float64))
      → Memᴰ z zs
      → Memᴰ (entry_of t redis reads d z) (entries_of t redis reads d zs)
  Memᴰ-entries_of redis reads d z [] m = elim m [ ]
  Memᴰ-entries_of redis reads d z (y ∷ ys) (Memᴰ.head p) =
      Memᴰ.head (ap (entry_of t redis reads d) p)
  Memᴰ-entries_of redis reads d z (y ∷ ys) (Memᴰ.tail p) =
      Memᴰ.tail (Memᴰ-entries_of redis reads d z ys p)

  module _ (redis : Redis) (laws : RedisLaws redis) where
    entry_of-written :
        (reads : Reads) (e : Entry) (d later : redis.Data)
        → Storable e
        → redis.card (scorecard_key e.team_id) later
          ≡ redis.card (scorecard_key e.team_id) (written t redis e d)
        → reads.card_fails e.team_id ≡ false
        → entry_of t redis reads later (e.team_id, e.score) ≡ kept (reads.stamp e.team_id) e
    entry_of-written reads e d later ok stays up =
        rw (up, entry_of) (ap (stamped t redis (reads.stamp e.team_id)) read_all)
      where
        card : Card
        card = redis.card (scorecard_key e.team_id) later

        same :
            (name : String)
            → has_field name (scorecard t e) ≡ true
            → field name card ≡ field name (scorecard t e)
        same name h =
            ap (field name) stays
            ∙ laws.sets global_zset e.team_id e.score (scorecard_key e.team_id) (scorecard t e) d
                name h

        read_all : with_card t (blank e.team_id e.score) card ≡ kept 0 e
        read_all =
            with_card_full (blank e.team_id e.score) card "team_id"
              (subst (λ (s : String). str_eq s "" ≡ false) (sym (same "team_id" refl)) ok.named)
            ∙ read_back e card ok same

    -- What others write leaves the rank and the scorecard of a team.
    pub record Leaves (team : String) (score : Float64) (d later : redis.Data) : Type 0 where
      pub rank :
          Memᴰ (team, score) (redis.ranking global_zset d)
          → Memᴰ (team, score) (redis.ranking global_zset later)
      pub card_stays : redis.card (scorecard_key team) later ≡ redis.card (scorecard_key team) d

    -- What redis holds when the refresh of an upsert reads it, and the entries that are read.
    abbrev pub at_refresh : (redis.Data → redis.Data) → Entry → redis.Data → redis.Data
    at_refresh others entry d = others (written t redis (with_team entry) d)

    abbrev pub read_entries : Reads → redis.Data → List Entry
    read_entries reads d = entries_of t redis reads d (redis.ranking global_zset d)

    -- An upsert, whose transaction succeeds, of a result whose numbers redis can hold, where others
    -- leave the rank and the scorecard of its team until the refresh has read them, the read of that
    -- scorecard succeeds, and no other call changes the snapshot before it is returned. There is no
    -- error, and either the ranking could not be read or some entry does not encode, and the reply is
    -- the old snapshot, or the reply has the entry with everything that the scorecard has a field for,
    -- at the time of that read.
    pub upsert-kept :
        (bytes_equal : List Entry → List Entry → Bool) (others : redis.Data → redis.Data)
        (reads : Reads) (between : RedisBoard → RedisBoard) (entry : Entry) (d : redis.Data)
        (b : RedisBoard)
        → Storable (with_team entry)
        → Leaves
            (with_team entry).team_id
            entry.score
            (written t redis (with_team entry) d)
            (at_refresh others entry d)
        → reads.card_fails (with_team entry).team_id ≡ false
        → ((x : RedisBoard) → (between x).snapshot ≡ x.snapshot)
        → let reply = (upsert t redis bytes_equal false others reads between entry d b).0 in
          (reply.1 ≡ none)
          × ((((reads.ranking_fails ≡ true)
                  ⊎ (all_finite (read_entries reads (at_refresh others entry d)) ≡ false))
                × (reply.0 ≡ b.snapshot))
              ⊎ ((reads.ranking_fails ≡ false)
                  × (all_finite (read_entries reads (at_refresh others entry d)) ≡ true)
                  × Memᴰ (kept (reads.stamp (with_team entry).team_id) (with_team entry)) reply.0))
    unfolding upsert refresh
    upsert-kept bytes_equal others reads between entry d b ok leaves card_up quiet =
        elim (Bool-cases reads.ranking_fails) [
          | inl down ↦ rw (down, refresh) (refl, inl (inl refl, quiet b))
          | inr up ↦ elim (Bool-cases (all_finite (read_entries reads d'))) [
            | inl fine ↦
                rw (up, refresh)
                  (rw (fine, refresh_with)
                    (
                      refl,
                      inr (
                        refl,
                        refl,
                        subst (λ (l : List Entry). Memᴰ (kept (reads.stamp e.team_id) e) l)
                            (sym (quiet _)) entry_is_there,
                      ),
                    ))
            | inr odd ↦ rw (up, refresh) (rw (odd, refresh_with) (refl, inl (inr refl, quiet b)))
          ]
        ]
      where
        e : Entry
        e = with_team entry

        d' : redis.Data
        d' = at_refresh others entry d

        entry_is_there : Memᴰ (kept (reads.stamp e.team_id) e) (read_entries reads d')
        entry_is_there =
            subst (λ (x : Entry). Memᴰ x (read_entries reads d'))
              (entry_of-written reads e d d' ok leaves.card_stays card_up)
              (Memᴰ-entries_of redis reads d' (e.team_id, e.score) (redis.ranking global_zset d')
                (leaves.rank (
                  laws.adds global_zset e.team_id e.score (scorecard_key e.team_id) (scorecard t e)
                    d (score_finite e ok))))
