-- ===== src/Orchestrator/Store.antt =====
-- services/orchestrator/internal/store/json_store.go and filelock.go: the index of submissions and
-- runs. A method is a function of the index file and of what the operating system answers to its
-- calls, and returns the file that it leaves. The modules below prove how the methods act.
pub mod Calls
pub mod Saves
pub mod Claims
pub mod History
use quant_dominater.Base.{
  String, Bool, true, not, ◌&&◌, Option, none, some, List, [], ◌∷◌, str_eq, if◌then◌else◌,
}
use quant_dominater.Base.Float.{is_finite}
use quant_dominater.Orchestrator.Model.{
  Time, Submission, BenchmarkRun, RunStatus, queued, building, is_terminal, status_eq, touch,
}

pub data Error : Type 0 where
  not_found : Error
  in_progress : RunStatus → Error
  canceled : Error
  deadline_exceeded : Error
  message : String → Error

pub data Result (A : Type 0) : Type 0 where
  ok : A → Result A
  err : Error → Result A

-- A Go pair of a run, which may be nil, and an error.
abbrev pub Reply : Type 0
Reply = Option BenchmarkRun × Option Error

-- `snapshot`
pub record Snapshot : Type 0 where
  pub submissions : List Submission
  pub runs : List BenchmarkRun

-- What `os.ReadFile` and `json.Unmarshal` find at the store's path.
pub data File : Type 0 where
  missing : File
  unreadable : Error → File
  empty : File
  garbage : Error → File
  holds : Snapshot → File

-- What the operating system answers to the calls of one operation, in the order of the calls.
pub record Os : Type 0 where
  pub lock_mkdir : Option Error
  pub lock_open : Option Error
  pub flock : Option Error
  pub mkdir : Option Error
  pub write_file : Option Error
  pub rename : Option Error

-- `if err != nil { return err }` in a row
infixl 40 ◌or_else◌
abbrev pub ◌or_else◌ : Option Error → Option Error → Option Error
none or_else e = e
some x or_else e = some x

-- `acquireFileLock`; `release` and the mutex leave nothing that a later call sees.
abbrev pub acquire_file_lock : Os → Option Error
acquire_file_lock os = (os.lock_mkdir or_else os.lock_open) or_else os.flock

abbrev pub no_records : Snapshot
no_records = record { submissions = []; runs = [] }

-- `loadLocked`
abbrev pub load_locked : File → Result Snapshot
load_locked missing = ok no_records
load_locked (unreadable e) = err e
load_locked empty = ok no_records
load_locked (garbage e) = err e
load_locked (holds snap) = ok snap

-- `json.MarshalIndent` refuses NaN and the infinities.
unfoldable pub scores_finite : List BenchmarkRun → Bool
scores_finite [] = true
scores_finite (run ∷ runs) = is_finite run.score && scores_finite runs

abbrev pub marshal : Snapshot → Option Error
marshal snap = if scores_finite snap.runs then none else some (message "json: unsupported value")

-- `writeLocked`: the file is replaced by the rename alone.
unfoldable pub write_locked : Os → Snapshot → File → File × Option Error
write_locked os snap file =
    elim (((os.mkdir or_else marshal snap) or_else os.write_file) or_else os.rename) [
      | none ↦ (holds snap, none)
      | some e ↦ (file, some e)
    ]

-- the loop of `GetSubmission`
unfoldable pub find_submission : String → List Submission → Option Submission
find_submission id [] = none
find_submission id (s ∷ ss) = if str_eq s.submission_id id then some s else find_submission id ss

-- `return x, nil` at the record that the loop finds, and `return nil, ErrNotFound` after it
abbrev pub found : {A : Type 0} → Option A → Result A
found none = err not_found
found (some a) = ok a

unfoldable pub get_submission : String → File → Result Submission
unfolding find_submission
get_submission id file = elim (load_locked file) [
  | err e ↦ err e
  | ok snap ↦ found (find_submission id snap.submissions)
]

-- the loop of `GetRun`; `cloneRun` copies a value
unfoldable pub find_run : String → List BenchmarkRun → Option BenchmarkRun
find_run id [] = none
find_run id (run ∷ runs) = if str_eq run.run_id id then some run else find_run id runs

unfoldable pub get_run : String → File → Result BenchmarkRun
get_run id file = elim (load_locked file) [
  | err e ↦ err e
  | ok snap ↦ found (find_run id snap.runs)
]

-- `SaveRun`'s terminal-state guard
abbrev pub conflicts : BenchmarkRun → BenchmarkRun → Bool
conflicts existing run =
    is_terminal existing.status
    && is_terminal run.status
    && not (status_eq existing.status run.status)

-- How the loop of `SaveRun` ends.
pub data Saving : Type 0 where
  absent : Saving
  refused : Saving
  replaced : List BenchmarkRun → Saving

abbrev pub pass_over : BenchmarkRun → Saving → Saving
pass_over existing absent = absent
pass_over existing refused = refused
pass_over existing (replaced runs) = replaced (existing ∷ runs)

unfoldable pub save_in : BenchmarkRun → List BenchmarkRun → Saving
save_in run [] = absent
save_in run (existing ∷ runs) =
    if str_eq existing.run_id run.run_id
    then (if conflicts existing run then refused else replaced (run ∷ runs))
    else pass_over existing (save_in run runs)

abbrev pub finish_save : Os → List Submission → Saving → File → File × Option Error
finish_save os subs absent file = (file, some not_found)
finish_save os subs refused file = (file, none)
finish_save os subs (replaced runs) file =
    write_locked os (record { submissions = subs; runs = runs }) file

-- The first lines of `SaveRun`, `ClaimRun` and `ClaimNextQueuedRun`: the lock, then the load.
unfoldable pub locked_snapshot : {A : Type 0} → Os → File → (Error → A) → (Snapshot → A) → A
locked_snapshot os file fail next = elim (acquire_file_lock os) [
  | some e ↦ fail e
  | none ↦ elim (load_locked file) [ err e ↦ fail e | ok snap ↦ next snap ]
]

-- `SaveRun`
unfoldable pub save_run : Os → BenchmarkRun → File → File × Option Error
save_run os run file =
    locked_snapshot os file (λ e. (file, some e))
      (λ snap. finish_save os snap.submissions (save_in run snap.runs) file)

-- How the loop of `ClaimRun` or `ClaimNextQueuedRun` ends.
pub data Claiming : Type 0 where
  no_match : Claiming
  closed : BenchmarkRun → Claiming
  busy : BenchmarkRun → Claiming
  taken : BenchmarkRun → List BenchmarkRun → Claiming

abbrev pub skip : BenchmarkRun → Claiming → Claiming
skip run (taken got runs) = taken got (run ∷ runs)
skip run other = other

-- The body of `ClaimRun`'s loop, at the run with that id.
abbrev pub claim_this : Time → BenchmarkRun → List BenchmarkRun → Claiming
claim_this now run runs =
    if is_terminal run.status
    then closed run
    else if status_eq run.status queued
    then taken (touch now building run) (touch now building run ∷ runs)
    else busy run

unfoldable pub claim_in : Time → String → List BenchmarkRun → Claiming
claim_in now id [] = no_match
claim_in now id (run ∷ runs) =
    if str_eq run.run_id id then claim_this now run runs else skip run (claim_in now id runs)

abbrev pub reply_claim : BenchmarkRun → File × Option Error → File × Reply
reply_claim run (file, some e) = (file, (none, some e))
reply_claim run (file, none) = (file, (some run, none))

abbrev pub finish_claim : Os → List Submission → Claiming → File → File × Reply
finish_claim os subs no_match file = (file, (none, some not_found))
finish_claim os subs (closed run) file = (file, (some run, none))
finish_claim os subs (busy run) file = (file, (some run, some (in_progress run.status)))
finish_claim os subs (taken run runs) file =
    reply_claim run (write_locked os (record { submissions = subs; runs = runs }) file)

-- `ClaimRun`
unfoldable pub claim_run : Os → Time → String → File → File × Reply
claim_run os now id file =
    locked_snapshot os file (λ e. (file, (none, some e)))
      (λ snap. finish_claim os snap.submissions (claim_in now id snap.runs) file)

-- the loop of `ClaimNextQueuedRun`
unfoldable pub claim_first : Time → List BenchmarkRun → Claiming
claim_first now [] = no_match
claim_first now (run ∷ runs) =
    if status_eq run.status queued
    then taken (touch now building run) (touch now building run ∷ runs)
    else skip run (claim_first now runs)

-- `sort.Slice` is not stable: any function that meets its contract may stand for it.
abbrev pub Sort : Type 0
Sort = List BenchmarkRun → List BenchmarkRun

-- `ClaimNextQueuedRun`, with its sort by `CreatedAt`
unfoldable pub claim_next_queued_run : Sort → Os → Time → File → File × Reply
claim_next_queued_run sort os now file =
    locked_snapshot os file (λ e. (file, (none, some e)))
      (λ snap. finish_claim os snap.submissions (claim_first now (sort snap.runs)) file)

-- `ListRuns`, with its sort by `CreatedAt`, latest first
unfoldable pub list_runs : Sort → File → Result (List BenchmarkRun)
list_runs sort file = elim (load_locked file) [ err e ↦ err e | ok snap ↦ ok (sort snap.runs) ]
