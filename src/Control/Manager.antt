-- ===== src/Control/Manager.antt =====
-- services/control-panel/internal/run/manager.go: `CreateRun`, `CancelRun`, `Shutdown` and the end of
-- a run's goroutine.
use quant_dominater.Base.{
  ℕ, ◌+◌, ◌-◌, String, false, Option, none, some, List, [], ◌∷◌, ◌++◌, ltb, get_elem?, drop_at,
  if◌then◌else◌,
}
use quant_dominater.Base.Keys.{remove_cancel, has_cancel}
use quant_dominater.Orchestrator.Store.{Error, message, Result, ok, err, ◌or_else◌}
use quant_dominater.Control.Model.{Time, RunRequest, BenchmarkRun, queued, cancelled, is_terminal}
use quant_dominater.Control.Requests.{normalize_request}
use quant_dominater.Control.Store.{File, Os, Order, save, get}
use quant_dominater.Control.Execute.{Env, World, not_started, execute}

abbrev pub max_concurrent_runs : ℕ
max_concurrent_runs = 8

-- `slots` is the length of the channel `sem`. `live` are the runs whose goroutine has not returned,
-- and `called` the runs whose cancel function has been called.
pub record Manager : Type 0 where
  pub file : File
  pub slots : ℕ
  pub cancels : List String
  pub live : List BenchmarkRun
  pub called : List String

-- What the calls of one `CreateRun` answer.
pub record Answers : Type 0 where
  pub run_id : String
  pub artifact_dir : String
  pub now : Time
  pub mkdir : Option Error
  pub placeholders : Option Error
  pub os : Os
  pub order : Order
  pub run_spec : Option Error
  pub config : Option Error

abbrev pub new_run : Answers → RunRequest → BenchmarkRun
new_run a req = record {
  run_id = a.run_id;
  team_id = req.team_id;
  status = queued;
  engine_mode = req.engine_mode;
  bot_count = req.bot_count;
  orders_per_sec = req.orders_per_sec;
  duration_sec = req.duration_sec;
  seed = req.seed;
  artifact_dir = a.artifact_dir;
  started_at = a.now;
  updated_at = a.now;
  finished_at = none;
  valid = none;
  score = 0;
  failure_stage = "";
  failure_reason = "";
  metrics = none;
  validation = none;
}

abbrev pub take_slot : Manager → Manager
take_slot m = record m { slots = m.slots + 1 }

-- `<-m.sem`
abbrev pub give_slot : Manager → Manager
give_slot m = record m { slots = m.slots - 1 }

-- `m.cancels[runID] = cancel`, then `go m.execute(runCtx, r)`
abbrev pub launch : BenchmarkRun → Manager → Manager
launch run m = record m {
  cancels = run.run_id ∷ remove_cancel run.run_id m.cancels;
  live = run ∷ m.live;
}

-- `CreateRun` behind its save: the two files, then the start of the goroutine.
abbrev pub launch_saved :
    Answers → BenchmarkRun → File × Option Error → Manager → Result BenchmarkRun × Manager
launch_saved a run (file, e) m = elim ((e or_else a.run_spec) or_else a.config) [
  | some x ↦ (err x, give_slot (record m { file = file }))
  | none ↦ (ok run, launch run (record m { file = file }))
]

-- `CreateRun` with a slot, which it gives back where it returns before the start of the goroutine.
abbrev pub create_in_slot : Answers → RunRequest → Manager → Result BenchmarkRun × Manager
create_in_slot a req m = elim (a.mkdir or_else a.placeholders) [
  | some e ↦ (err e, give_slot m)
  | none ↦ launch_saved a (new_run a req) (save a.os a.order (new_run a req) m.file) m
]

-- `CreateRun` of a normalized request
abbrev pub create_normalized : Answers → Result RunRequest → Manager → Result BenchmarkRun × Manager
create_normalized a (err e) m = (err e, m)
create_normalized a (ok req) m =
    if ltb m.slots max_concurrent_runs
    then create_in_slot a req (take_slot m)
    else (err (message "too many concurrent runs; retry later"), m)

-- `CreateRun`
unfoldable pub create_run : Answers → RunRequest → Manager → Result BenchmarkRun × Manager
unfolding normalize_request save
create_run a req m = create_normalized a (normalize_request req) m

abbrev pub cancelled_at : Time → BenchmarkRun → BenchmarkRun
cancelled_at now run = record run { status = cancelled; finished_at = some now; updated_at = now }

-- What the second save of `CancelRun` is answered, and what other goroutines do before it.
pub record CancelAnswers : Type 0 where
  pub now : Time
  pub os : Os
  pub order : Order
  pub others : File → File

abbrev pub call_cancel : String → Manager → Manager
call_cancel id m = if has_cancel id m.cancels then record m { called = id ∷ m.called } else m

abbrev pub reply_cancel :
    BenchmarkRun → File × Option Error → Manager → Result BenchmarkRun × Manager
reply_cancel run (file, some e) m = (err e, record m { file = file })
reply_cancel run (file, none) m = (ok run, record m { file = file })

-- `CancelRun` behind its read
abbrev pub cancel_read :
    CancelAnswers → String → Result BenchmarkRun → Manager → Result BenchmarkRun × Manager
cancel_read c id (err e) m = (err e, m)
cancel_read c id (ok run) m =
    if is_terminal run.status
    then (ok run, m)
    else reply_cancel (cancelled_at c.now run)
        (save c.os c.order (cancelled_at c.now run) (c.others m.file)) (call_cancel id m)

-- `CancelRun`
unfoldable pub cancel_run : CancelAnswers → String → Manager → Result BenchmarkRun × Manager
unfolding get save
cancel_run c id m = cancel_read c id (get id m.file) m

-- The cancels of `Shutdown`; its wait ends as soon as `cancels` is empty.
unfoldable pub shutdown : Manager → Manager
shutdown m = record m { called = m.cancels ++ m.called }

-- What `execute` of a run starts from.
abbrev pub world_of : BenchmarkRun → Manager → World
world_of run m = record {
  run = run;
  file = m.file;
  engine = not_started;
  cleanup_deferred = false;
  cancels = m.cancels;
  slots = m.slots;
  trail = [];
}

abbrev pub after_run : ℕ → World → Manager → Manager
after_run i w m = record m {
  file = w.file;
  cancels = w.cancels;
  slots = w.slots;
  live = drop_at i m.live;
}

-- The goroutine of a live run comes to its end. What other goroutines do to the file meanwhile is a
-- part of `env`.
unfoldable pub finish_run : Env → ℕ → Manager → Manager
unfolding execute
finish_run env i m = elim (get_elem? m.live i) [
  | none ↦ m
  | some run ↦ after_run i (execute env (world_of run m)) m
]

-- `NewManager`
abbrev pub new_manager : File → Manager
new_manager file = record { file = file; slots = 0; cancels = []; live = []; called = [] }
