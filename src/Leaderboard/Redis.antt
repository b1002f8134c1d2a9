-- ===== src/Leaderboard/Redis.antt =====
-- services/leaderboard-api/internal/redisboard/redisboard.go: the board that polls redis.
use Prim.Native.String.{◌++◌ as string_append}
use quant_dominater.Base.{
  ℕ, ◌-◌, ◌/◌, String, Bool, true, false, Option, none, some, List, [], ◌∷◌, str_eq, ◌==◌,
  if◌then◌else◌,
}
use quant_dominater.Base.Int.{ℤ, pos, negsuc, leb_ℤ, mul_ℤ, int64}
use quant_dominater.Base.Float.{Float64}
use quant_dominater.Leaderboard.Board.{
  Entry, Channel, BoardError, not_written, all_finite, offer, broadcast, without,
}

-- A hash of redis, by the names of its fields.
abbrev pub Card : Type 0
Card = List (String × String)

-- Reading a map: a missing field is the empty text.
abbrev pub field : String → Card → String
field name [] = ""
field name ((k, v) ∷ card) = if str_eq k name then v else field name card

-- How the redis client writes a number, and what `strconv` reads: `ParseFloat`, and the value that
-- `ParseInt` gives beside its error.
pub record Texts : Type 0 where
  pub of_int : ℤ → String
  pub of_float : Float64 → String
  pub to_float : String → Option Float64
  pub to_int : String → ℤ

-- What redis holds, with ZREVRANGE WITHSCORES of a whole set, HGETALL, and ZADD and HSET of one
-- transaction.
pub record Redis : Type 1 where
  pub Data : Type 0
  pub ranking : String → Data → List (String × Float64)
  pub card : String → Data → Card
  pub write : String → String → Float64 → String → Card → Data → Data

-- Which calls of one refresh fail, and what the clock says: for the entry of a team, and at the end.
pub record Reads : Type 0 where
  pub ranking_fails : Bool
  pub card_fails : String → Bool
  pub stamp : String → ℕ
  pub now : ℕ

-- A payload is the snapshot that it encodes; the zero Time is 0.
pub record RedisBoard : Type 0 where
  pub snapshot : List Entry
  pub last_payload : Option (List Entry)
  pub subscribers : List Channel
  pub last_refresh : ℕ

abbrev pub global_zset : String
global_zset = "leaderboard:global"

abbrev pub scorecard_key : String → String
scorecard_key team = string_append "team:" (string_append team ":scorecard")

abbrev pub bool_to_int : Bool → ℤ
bool_to_int b = if b then pos 1 else pos 0

abbrev pub float_or : Float64 → Option Float64 → Float64
float_or def none = def
float_or def (some x) = x

-- `board.Entry{TeamID: team, Score: z.Score}`
abbrev pub blank : String → Float64 → Entry
blank team score = record {
  run_id = "";
  team_id = team;
  score = score;
  valid = false;
  status = "";
  failure_reason = "";
  orders_sent = pos 0;
  acks_received = pos 0;
  fills_received = pos 0;
  timeouts = pos 0;
  connect_errors = pos 0;
  fills_checked = pos 0;
  p50_ms = 0;
  p90_ms = 0;
  p99_ms = 0;
  p999_ms = 0;
  tps = 0;
  peak_tps = 0;
  latency_score = 0;
  throughput_score = 0;
  stability_score = 0;
  resource_score = 0;
  correctness_gate = "";
  artifact_dir = "";
  updated_at = 0;
}

-- `if entry.TeamID == ""`
abbrev pub with_team : Entry → Entry
with_team e = record e { team_id = if str_eq e.team_id "" then e.run_id else e.team_id }

module _ (t : Texts) where
  abbrev pub atof : String → Float64 → Float64
  atof s def = if str_eq s "" then def else float_or def (t.to_float s)

  abbrev pub apply_scorecard : Entry → Card → Entry
  apply_scorecard e card = record e {
    run_id = field "run_id" card;
    team_id = if str_eq (field "team_id" card) "" then e.team_id else field "team_id" card;
    valid = str_eq (field "valid" card) "1";
    failure_reason = field "failure_reason" card;
    score = atof (field "score" card) e.score;
    latency_score = atof (field "latency_score" card) 0;
    throughput_score = atof (field "throughput_score" card) 0;
    stability_score = atof (field "stability_score" card) 0;
    resource_score = atof (field "resource_score" card) 0;
    p50_ms = atof (field "p50_ms" card) 0;
    p90_ms = atof (field "p90_ms" card) 0;
    p99_ms = atof (field "p99_ms" card) 0;
    p999_ms = atof (field "p999_ms" card) 0;
    tps = atof (field "tps" card) 0;
    peak_tps = atof (field "peak_tps" card) 0;
    orders_sent = t.to_int (field "orders_sent" card);
    acks_received = t.to_int (field "acks_received" card);
    timeouts = t.to_int (field "timeouts" card);
  }

  -- `len(card) > 0`
  abbrev pub with_card : Entry → Card → Entry
  with_card e [] = e
  with_card e (f ∷ card) = apply_scorecard e (f ∷ card)

  -- The arguments of HSET in `Upsert`
  abbrev pub scorecard : Entry → Card
  scorecard e =
      ("run_id", e.run_id)
      ∷ ("team_id", e.team_id)
      ∷ ("valid", t.of_int (bool_to_int e.valid))
      ∷ ("score", t.of_float e.score)
      ∷ ("p50_ms", t.of_float e.p50_ms)
      ∷ ("p90_ms", t.of_float e.p90_ms)
      ∷ ("p99_ms", t.of_float e.p99_ms)
      ∷ ("p999_ms", t.of_float e.p999_ms)
      ∷ ("tps", t.of_float e.tps)
      ∷ ("peak_tps", t.of_float e.peak_tps)
      ∷ ("latency_score", t.of_float e.latency_score)
      ∷ ("throughput_score", t.of_float e.throughput_score)
      ∷ ("stability_score", t.of_float e.stability_score)
      ∷ ("resource_score", t.of_float e.resource_score)
      ∷ ("orders_sent", t.of_int e.orders_sent)
      ∷ ("acks_received", t.of_int e.acks_received)
      ∷ ("timeouts", t.of_int e.timeouts)
      ∷ ("failure_reason", e.failure_reason)
      ∷ []

  module _ (redis : Redis) where
    abbrev pub stamped : ℕ → Entry → Entry
    stamped now e = record e { updated_at = if e.updated_at == 0 then now else e.updated_at }

    abbrev pub entry_of : Reads → redis.Data → String × Float64 → Entry
    entry_of reads d (team, score) =
        let e = blank team score in
        stamped (reads.stamp team)
          (if reads.card_fails team then e else with_card e (redis.card (scorecard_key team) d))

    abbrev pub entries_of : Reads → redis.Data → List (String × Float64) → List Entry
    entries_of reads d [] = []
    entries_of reads d (z ∷ zs) = entry_of reads d z ∷ entries_of reads d zs

    -- The transaction of `Upsert`
    abbrev pub written : Entry → redis.Data → redis.Data
    written e = redis.write global_zset e.team_id e.score (scorecard_key e.team_id) (scorecard e)

    -- `bytesEqual` of two encoded snapshots
    module _ (bytes_equal : List Entry → List Entry → Bool) where
      abbrev pub is_changed : List Entry → Option (List Entry) → Bool
      is_changed entries none = true
      is_changed entries (some last) = if bytes_equal entries last then false else true

      abbrev pub refresh_with : ℕ → List Entry → RedisBoard → RedisBoard
      refresh_with now entries b =
          if all_finite entries
          then record {
            snapshot = entries;
            last_payload = some entries;
            subscribers =
                if is_changed entries b.last_payload
                then broadcast entries b.subscribers
                else b.subscribers;
            last_refresh = now;
          }
          else b

      unfoldable pub refresh : Reads → redis.Data → RedisBoard → RedisBoard
      refresh reads d b =
          if reads.ranking_fails
          then b
          else refresh_with reads.now (entries_of reads d (redis.ranking global_zset d)) b

      -- `Upsert`: the answer of the transaction, what others write to redis before the refresh, the
      -- reads of the refresh, and what other calls do to the board before `List`
      unfoldable pub upsert :
          Bool
          → (redis.Data → redis.Data)
          → Reads
          → (RedisBoard → RedisBoard)
          → Entry
          → redis.Data
          → RedisBoard
          → (List Entry × Option BoardError) × redis.Data × RedisBoard
      unfolding refresh
      upsert exec_fails others reads between entry d b =
          if exec_fails
          then (let b' = between b in ((b'.snapshot, some not_written), others d, b'))
          else (let d' = others (written (with_team entry) d) in
              let b' = between (refresh reads d' b) in ((b'.snapshot, none), d', b'))

abbrev pub payload_or_empty : Option (List Entry) → List Entry
payload_or_empty none = []
payload_or_empty (some payload) = payload

-- `Subscribe`, of a new channel
unfoldable pub subscribe : ℕ → RedisBoard → RedisBoard
unfolding offer
subscribe addr b = record b {
  subscribers =
      offer (payload_or_empty b.last_payload) (record { addr = addr; buffer = [] }) ∷ b.subscribers;
}

-- The function that `Subscribe` returns
unfoldable pub unsubscribe : ℕ → RedisBoard → RedisBoard
unsubscribe addr b = record b { subscribers = without addr b.subscribers }

-- `Ready`: whether the data is fresh
unfoldable pub ready : ℤ → ℕ → RedisBoard → Bool
ready interval now b =
    if b.last_refresh == 0
    then false
    else leb_ℤ (pos (now - b.last_refresh)) (int64 (mul_ℤ (pos 3) interval))

unfoldable pub stale_age_ms : ℕ → RedisBoard → ℤ
stale_age_ms now b =
    if b.last_refresh == 0 then negsuc 0 else pos ((now - b.last_refresh) / 1000000)
