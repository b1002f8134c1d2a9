-- ===== src/Leaderboard/Board.antt =====
-- services/leaderboard-api/internal/board/board.go: `Board` and its operations.
use quant_dominater.Base.{
  ℕ, String, Bool, true, ◌&&◌, Option, none, some, List, [], ◌∷◌, ◌++◌, str_eq, length, ltb, ◌==◌,
  if◌then◌else◌,
}
use quant_dominater.Base.Int.{ℤ}
use quant_dominater.Base.Float.{Float64, is_finite, float_eq, float_lt}

pub record Entry : Type 0 where
  pub run_id : String
  pub team_id : String
  pub score : Float64
  pub valid : Bool
  pub status : String
  pub failure_reason : String
  pub orders_sent : ℤ
  pub acks_received : ℤ
  pub fills_received : ℤ
  pub timeouts : ℤ
  pub connect_errors : ℤ
  pub fills_checked : ℤ
  pub p50_ms : Float64
  pub p90_ms : Float64
  pub p99_ms : Float64
  pub p999_ms : Float64
  pub tps : Float64
  pub peak_tps : Float64
  pub latency_score : Float64
  pub throughput_score : Float64
  pub stability_score : Float64
  pub resource_score : Float64
  pub correctness_gate : String
  pub artifact_dir : String
  -- nanoseconds since the zero Time
  pub updated_at : ℕ

abbrev pub Entries : Type 0
Entries = List (String × Entry)

-- A subscriber's channel by its address, with what waits in it. A payload is the JSON of a snapshot.
pub record Channel : Type 0 where
  pub addr : ℕ
  pub buffer : List (List Entry)

-- The file behind the board: missing, with a text that does not decode, or with a list of entries; an
-- empty file has no entries.
pub data BoardFile : Type 0 where
  missing undecodable : BoardFile
  holds : List Entry → BoardFile

pub data BoardError : Type 0 where
  run_id_required unsupported_value not_written not_loaded : BoardError

pub record Board : Type 0 where
  pub entries : Entries
  pub subscribers : List Channel
  pub file : BoardFile

-- `b.entries[id] = entry`
unfoldable pub put : String → Entry → Entries → Entries
put id entry [] = (id, entry) ∷ []
put id entry ((k, e) ∷ es) = if str_eq k id then (k, entry) ∷ es else (k, e) ∷ put id entry es

abbrev pub values : Entries → List Entry
values [] = []
values ((k, e) ∷ es) = e ∷ values es

-- The comparison of `snapshotLocked`
abbrev pub ranks_before : Entry → Entry → Bool
ranks_before a b =
    if float_eq a.score b.score then ltb a.updated_at b.updated_at else float_lt b.score a.score

-- What `encoding/json` can write: no number is NaN or infinite.
abbrev pub entry_finite : Entry → Bool
entry_finite e =
    is_finite e.score
    && is_finite e.p50_ms
    && is_finite e.p90_ms
    && is_finite e.p99_ms
    && is_finite e.p999_ms
    && is_finite e.tps
    && is_finite e.peak_tps
    && is_finite e.latency_score
    && is_finite e.throughput_score
    && is_finite e.stability_score
    && is_finite e.resource_score

abbrev pub all_finite : List Entry → Bool
all_finite [] = true
all_finite (e ∷ es) = entry_finite e && all_finite es

abbrev pub channel_capacity : ℕ
channel_capacity = 8

-- A send with a default case: a full channel drops the payload. Also `seedSubscriber`.
unfoldable pub offer : List Entry → Channel → Channel
offer payload c =
    if ltb (length c.buffer) channel_capacity
    then record c { buffer = c.buffer ++ (payload ∷ []) }
    else c

unfoldable pub broadcast : List Entry → List Channel → List Channel
broadcast payload [] = []
broadcast payload (c ∷ cs) = offer payload c ∷ broadcast payload cs

-- `writeLocked`: the answer of the file system, and the encoding's; the rename puts the new file in place.
abbrev pub write_board : Option BoardError → List Entry → BoardFile → BoardFile × Option BoardError
write_board (some e) entries file = (file, some e)
write_board none entries file =
    if all_finite entries then (holds entries, none) else (file, some unsupported_value)

-- The defaults of `Upsert`
abbrev pub completed : ℕ → Entry → Entry
completed now e = record e {
  team_id = if str_eq e.team_id "" then e.run_id else e.team_id;
  updated_at = if e.updated_at == 0 then now else e.updated_at;
}

-- `sort.Slice` over a map's values, which come in any order.
module _ (arrange : List Entry → List Entry) where
  -- `snapshotLocked`, and `List`
  unfoldable pub snapshot : Board → List Entry
  snapshot b = arrange (values b.entries)

  abbrev pub upsert_checked :
      Option BoardError → Entry → Board → (List Entry × Option BoardError) × Board
  upsert_checked fs entry b =
      let entries' = put entry.run_id entry b.entries in
      let snap = arrange (values entries') in
      let (file', e) = write_board fs snap b.file in
      (
        (snap, e),
        record {
          entries = entries';
          subscribers = if all_finite snap then broadcast snap b.subscribers else b.subscribers;
          file = file';
        },
      )

  -- `Upsert`
  unfoldable pub upsert :
      Option BoardError → ℕ → Entry → Board → (List Entry × Option BoardError) × Board
  upsert fs now entry b =
      if str_eq entry.run_id ""
      then (([], some run_id_required), b)
      else upsert_checked fs (completed now entry) b

  -- `Subscribe`, of a new channel; a snapshot that does not encode gives an empty payload.
  unfoldable pub subscribe : ℕ → Board → Board
  unfolding offer
  subscribe addr b =
      let snap = arrange (values b.entries) in
      record b {
        subscribers =
            offer (if all_finite snap then snap else []) (record { addr = addr; buffer = [] })
            ∷ b.subscribers;
      }

abbrev pub without : ℕ → List Channel → List Channel
without addr [] = []
without addr (c ∷ cs) = if c.addr == addr then without addr cs else c ∷ without addr cs

-- The function that `Subscribe` returns
unfoldable pub unsubscribe : ℕ → Board → Board
unsubscribe addr b = record b { subscribers = without addr b.subscribers }

abbrev pub tail_of : List (List Entry) → List (List Entry)
tail_of [] = []
tail_of (p ∷ ps) = ps

abbrev pub read_from : ℕ → List Channel → List Channel
read_from addr [] = []
read_from addr (c ∷ cs) =
    (if c.addr == addr then record c { buffer = tail_of c.buffer } else c) ∷ read_from addr cs

abbrev pub fill_map : List Entry → Entries → Entries
fill_map [] es = es
fill_map (e ∷ rest) es = fill_map rest (if str_eq e.run_id "" then es else put e.run_id e es)

-- `New` with its `load`
unfoldable pub new_board : BoardFile → Option Board
new_board missing = some (record { entries = []; subscribers = []; file = missing })
new_board undecodable = none
new_board (holds es) = some (record { entries = fill_map es []; subscribers = []; file = holds es })
