-- ===== src/Control/Store.antt =====
-- services/control-panel/internal/store/json_store.go: the file of runs. A method is a function of
-- the file and of what the operating system answers to its calls, and returns the file that it
-- leaves. The modules below prove how the methods act.
pub mod Records
pub mod Guard
pub mod Saves
use quant_dominater.Base.{
  String, Bool, true, false, not, ◌&&◌, Option, none, some, List, [], ◌∷◌, map, str_eq,
  if◌then◌else◌,
}
use quant_dominater.Base.Keys.{upsert}
use quant_dominater.Base.Float.{is_finite}
use quant_dominater.Orchestrator.Store.{
  Error, not_found, message, Result, ok, err, found, ◌or_else◌,
}
use quant_dominater.Control.Model.{Metrics, BenchmarkRun, same_status, is_terminal}

-- What `os.ReadFile` and `json.Unmarshal` find at the store's path; an element may be null.
pub data File : Type 0 where
  missing : File
  unreadable : Error → File
  empty : File
  garbage : Error → File
  holds : List (Option BenchmarkRun) → File

-- The map from ids to runs, in the order of the insertions.
abbrev pub Runs : Type 0
Runs = List BenchmarkRun

-- What the operating system answers to the calls of one write, in the order of the calls.
pub record Os : Type 0 where
  pub mkdir : Option Error
  pub write_file : Option Error
  pub rename : Option Error

-- `range` over a map goes in any order, and `sort.Slice` by `StartedAt` is not stable: the two
-- together are an argument.
abbrev pub Order : Type 0
Order = Runs → Runs

-- `runs[runID]`
unfoldable pub find : String → Runs → Option BenchmarkRun
find id [] = none
find id (r ∷ rs) = if str_eq r.run_id id then some r else find id rs

-- `runs[r.RunID] = cloneRun(r)`
abbrev pub put : BenchmarkRun → Runs → Runs
put = upsert (λ (r : BenchmarkRun). r.run_id)

abbrev pub put_element : Option BenchmarkRun → Runs → Runs
put_element none runs = runs
put_element (some r) runs = if str_eq r.run_id "" then runs else put r runs

-- the loop of `loadLocked`
unfoldable pub collect : List (Option BenchmarkRun) → Runs → Runs
unfolding upsert
collect [] runs = runs
collect (o ∷ os) runs = collect os (put_element o runs)

-- `loadLocked`
unfoldable pub load : File → Result Runs
unfolding collect
load missing = ok []
load (unreadable e) = err e
load empty = ok []
load (garbage e) = err e
load (holds list) = ok (collect list [])

abbrev pub metrics_finite : Option Metrics → Bool
metrics_finite none = true
metrics_finite (some m) =
    is_finite m.tps && is_finite m.p50_ms && is_finite m.p90_ms && is_finite m.p99_ms

-- `json.MarshalIndent` refuses NaN and the infinities.
unfoldable pub all_encode : Runs → Bool
all_encode [] = true
all_encode (r ∷ rs) = is_finite r.score && metrics_finite r.metrics && all_encode rs

abbrev pub encode : Runs → Option Error
encode list = if all_encode list then none else some (message "json: unsupported value")

-- `writeLocked`: the file is replaced by the rename alone.
unfoldable pub write : Os → Order → Runs → File → File × Option Error
unfolding all_encode
write os order runs file =
    elim (((os.mkdir or_else encode (order runs)) or_else os.write_file) or_else os.rename) [
      | none ↦ (holds (map some (order runs)), none)
      | some e ↦ (file, some e)
    ]

-- The terminal-state guard of `Save`.
abbrev pub clashes : Option BenchmarkRun → BenchmarkRun → Bool
clashes none run = false
clashes (some existing) run =
    is_terminal existing.status
    && is_terminal run.status
    && not (same_status existing.status run.status)

-- `Save`
unfoldable pub save : Os → Order → BenchmarkRun → File → File × Option Error
unfolding load find upsert write
save os order run file = elim (load file) [
  | err e ↦ (file, some e)
  | ok runs ↦
      if clashes (find run.run_id runs) run
      then (file, none)
      else write os order (put run runs) file
]

-- `Get`
unfoldable pub get : String → File → Result BenchmarkRun
unfolding load find
get id file = elim (load file) [ err e ↦ err e | ok runs ↦ found (find id runs) ]

-- `List`
unfoldable pub list : Order → File → Result Runs
unfolding load
list order file = elim (load file) [ err e ↦ err e | ok runs ↦ ok (order runs) ]
