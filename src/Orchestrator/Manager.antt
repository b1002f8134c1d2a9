-- ===== src/Orchestrator/Manager.antt =====
-- services/orchestrator/internal/orchestrator/manager.go: `StartRun`, `StartNextQueued`,
-- `claimAvailable`, `CancelRun`, `Shutdown` and the end of a run's goroutine.
use quant_dominater.Base.{
  ℕ, get_elem?, drop_at, ◌+◌, ◌-◌, String, Option, none, some, List, [], ◌∷◌, if◌then◌else◌,
}
use quant_dominater.Base.Keys.{remove_cancel, has_cancel}
use quant_dominater.Base.Int.{ℤ, pos, ltb_ℤ}
use quant_dominater.Orchestrator.Model.{Time, BenchmarkRun, cancelled, is_terminal, unix}
use quant_dominater.Orchestrator.Store.{
  Os, Error, Result, ok, err, Reply, File, Sort, get_run, save_run, claim_run,
  claim_next_queued_run,
}
use quant_dominater.Orchestrator.Execute.Run.{execute}
use quant_dominater.Orchestrator.Execute.World.{Env, World, not_started}

-- `slots` is the length of the channel `sem`, and `capacity` its capacity. `live` are the runs whose
-- goroutine has not returned, and `called` the runs whose cancel function has been called.
pub record Manager : Type 0 where
  pub file : File
  pub capacity : ℕ
  pub slots : ℕ
  pub cancels : List String
  pub live : List BenchmarkRun
  pub called : List String

-- `buildConcurrency`: the number of processors, and what `strconv.Atoi` made of the variable.
unfoldable pub build_concurrency : ℤ → Option ℤ → ℤ
build_concurrency num_cpu parsed =
    let n : ℤ = elim parsed [ none ↦ num_cpu | some v ↦ if ltb_ℤ (pos 0) v then v else num_cpu ] in
    if ltb_ℤ n (pos 1) then pos 1 else n

-- The `select` at the head of both starts: a slot, or the end of the caller's context. Where neither
-- is there the call waits.
pub data Acquire : Type 0 where
  slot : Acquire
  ctx_done : Error → Acquire

abbrev pub take_slot : Manager → Manager
take_slot m = record m { slots = m.slots + 1 }

-- `<-m.sem`
abbrev pub give_slot : Manager → Manager
give_slot m = record m { slots = m.slots - 1 }

-- `m.cancels[run.RunID] = cancel`, then `go m.execute(runCtx, run)`
abbrev pub launch_run : BenchmarkRun → Manager → Manager
launch_run run m = record m {
  cancels = run.run_id ∷ remove_cancel run.run_id m.cancels;
  live = run ∷ m.live;
}

-- `StartRun` behind the claim.
abbrev pub start_claimed : Reply → Manager → Reply × Manager
start_claimed (r, some e) m = ((r, some e), give_slot m)
start_claimed (none, none) m = ((none, none), give_slot m)
start_claimed (some run, none) m =
    if is_terminal run.status
    then ((some run, none), give_slot m)
    else ((some run, none), launch_run run m)

-- `StartRun`
unfoldable pub start_run : Acquire → Os → Time → String → Manager → Reply × Manager
start_run (ctx_done e) os now id m = ((none, some e), m)
start_run slot os now id m =
    let (file', reply) = claim_run os now id m.file in
    start_claimed reply (take_slot (record m { file = file' }))

-- `StartNextQueued` behind the claim.
abbrev pub start_next_claimed : Reply → Manager → Reply × Manager
start_next_claimed (r, some e) m = ((none, some e), give_slot m)
start_next_claimed (none, none) m = ((none, none), give_slot m)
start_next_claimed (some run, none) m = ((some run, none), launch_run run m)

-- `StartNextQueued`
unfoldable pub start_next_queued : Sort → Acquire → Os → Time → Manager → Reply × Manager
start_next_queued sort (ctx_done e) os now m = ((none, some e), m)
start_next_queued sort slot os now m =
    let (file', reply) = claim_next_queued_run sort os now m.file in
    start_next_claimed reply (take_slot (record m { file = file' }))

-- `claimAvailable`, with what each round of its loop meets; any error ends it.
unfoldable pub claim_available : Sort → List (Acquire × Os × Time) → Manager → Manager
unfolding start_next_queued
claim_available sort [] m = m
claim_available sort ((a, os, now) ∷ rounds) m =
    let (reply, m') = start_next_queued sort a os now m in
    let rest = claim_available sort rounds m' in elim reply.1 [ none ↦ rest | some e ↦ m' ]

-- What `execute` of a run starts from.
abbrev pub world_of : BenchmarkRun → Manager → World
world_of run m = record {
  run = run;
  file = m.file;
  engine = not_started;
  cancels = m.cancels;
  slots = m.slots;
  trail = [];
  events = [];
}

-- The goroutine of a live run comes to its end. What other goroutines and processes do to the index
-- meanwhile is a part of `env`.
unfoldable pub finish_run : Env → ℕ → Manager → Manager
finish_run env i m = elim (get_elem? m.live i) [
  | none ↦ m
  | some run ↦
      let w = execute env (world_of run m) in
      record m { file = w.file; cancels = w.cancels; slots = w.slots; live = drop_at i m.live }
]

abbrev pub cancelled_at : Time → BenchmarkRun → BenchmarkRun
cancelled_at now run = record run {
  status = cancelled;
  updated_at = now;
  updated_at_unix = unix now;
  finished_at = some now;
  finished_at_unix = unix now;
}

-- `CancelRun` behind its read; `others` is what other processes do before the save, whose error
-- is dropped.
abbrev pub cancel_read :
    (File → File) → Os → Time → String → Result BenchmarkRun → Manager → Reply × Manager
cancel_read others os now id (err e) m = ((none, some e), m)
cancel_read others os now id (ok run) m =
    if is_terminal run.status then ((some run, none), m) else (
      (some (cancelled_at now run), none),
      record m {
        file = (save_run os (cancelled_at now run) (others m.file)).0;
        called = if has_cancel id m.cancels then id ∷ m.called else m.called;
      },
    )

-- `CancelRun`
unfoldable pub cancel_run : (File → File) → Os → Time → String → Manager → Reply × Manager
cancel_run others os now id m = cancel_read others os now id (get_run id m.file) m

abbrev pub call_all : List String → List String → List String
call_all [] called = called
call_all (k ∷ ks) called = k ∷ call_all ks called

-- `Shutdown` up to its wait, which ends as soon as `cancels` is empty.
unfoldable pub shutdown : Manager → Manager
shutdown m = record m { called = call_all m.cancels m.called }
