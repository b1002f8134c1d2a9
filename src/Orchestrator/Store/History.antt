-- ===== src/Orchestrator/Store/History.antt =====
-- Any sequence of calls of the store's writing methods, by any number of processes: the lock that
-- each holds from its load to its rename makes them one sequence.
use quant_dominater.Base.{
  ℕ, ◌+◌, ◌≤◌, String, Bool, true, false, Option, none, some, List, [], ◌∷◌, ◌≡◌, refl, ap, ◌∙◌,
  str_eq, inl, inr, Bool-cases, not, ◌&&◌, bit, count_if, count_if-cons, count_if-nil, All, arith,
}
use quant_dominater.Orchestrator.Model.{
  Time, BenchmarkRun, RunStatus, queued, is_terminal, status_eq,
}
use quant_dominater.Orchestrator.Statuses.{status_eq→eq, guard_keeps_terminal}
use quant_dominater.Orchestrator.Store.{Os, File, Sort, save_run, claim_run, claim_next_queued_run}
use quant_dominater.Orchestrator.Store.Calls.{runs_of}
use quant_dominater.Orchestrator.Store.Saves.{Replaced, save_run-Replaced}
use quant_dominater.Orchestrator.Store.Claims.{
  Claimed, Grants, granted, KeepsRecords, claim_run-Grants, claim_next_queued_run-Grants,
}

pub data Call : Type 0 where
  save : Os → BenchmarkRun → Call
  claim : Os → Time → String → Call
  claim_next : Os → Time → Call

module _ (sort : Sort) where
  -- The file that a call leaves, and the run that it hands out.
  unfoldable pub perform : Call → File → File × Option BenchmarkRun
  perform (save os run) file = ((save_run os run file).0, none)
  perform (claim os now id) file =
      let (file', reply) = claim_run os now id file in (file', granted reply)
  perform (claim_next os now) file =
      let (file', reply) = claim_next_queued_run sort os now file in (file', granted reply)

abbrev pub add_grant : Option BenchmarkRun → List BenchmarkRun → List BenchmarkRun
add_grant none runs = runs
add_grant (some run) runs = run ∷ runs

module _ (sort : Sort) where
  unfoldable pub perform_all : List Call → File → File × List BenchmarkRun
  perform_all [] file = (file, [])
  perform_all (call ∷ calls) file =
      let (file', grant) = perform sort call file in
      let (file'', grants) = perform_all calls file' in (file'', add_grant grant grants)

-- What the saves among the calls write.
abbrev pub SavesOnly : (BenchmarkRun → Type 0) → Call → Type 0
SavesOnly P (save os run) = P run
SavesOnly P other = Unit

abbrev pub has_id : String → BenchmarkRun → Bool
has_id id run = str_eq run.run_id id

abbrev pub is_queued : String → BenchmarkRun → Bool
is_queued id run = str_eq run.run_id id && status_eq run.status queued

abbrev pub has_status : String → RunStatus → BenchmarkRun → Bool
has_status id st run = str_eq run.run_id id && status_eq run.status st

-- How often the calls hand out a run of that id.
abbrev pub grants_of : String → List BenchmarkRun → ℕ
grants_of id runs = count_if (has_id id) runs

bit-and_true : (b c : Bool) → c ≡ true → bit (b && c) ≡ bit b
bit-and_true true c h = rw h refl
bit-and_true false c h = refl

bit-and_false : (b c : Bool) → c ≡ false → bit (b && c) ≡ 0
bit-and_false true c h = rw h refl
bit-and_false false c h = refl

Claimed-counts :
    (id : String) (now : Time) (old new : List BenchmarkRun) (got : BenchmarkRun)
    → Claimed now old got new
    → bit (has_id id got) + count_if (is_queued id) new ≤ count_if (is_queued id) old
Claimed-counts id now old new got (was, q, e, counts) = omega (
  arith,
  counts (is_queued id),
  ap (λ r. bit (is_queued id r)) e,
  ap (λ r. bit (has_id id r)) e,
  bit-and_true (str_eq was.run_id id) (status_eq was.status queued) q,
  bit-and_false (str_eq was.run_id id) false refl,
)

Replaced-counts :
    (id : String) (run : BenchmarkRun) (old new : List BenchmarkRun)
    → status_eq run.status queued ≡ false
    → Replaced run old new
    → count_if (is_queued id) new ≤ count_if (is_queued id) old
Replaced-counts id run old new h (was, same, c, counts) = omega (
  arith,
  counts (is_queued id),
  bit-and_false (str_eq run.run_id id) (status_eq run.status queued) h,
)

grants-add_grant :
    (id : String) (run : BenchmarkRun) (runs : List BenchmarkRun)
    → grants_of id (add_grant (some run) runs) ≡ bit (has_id id run) + grants_of id runs
grants-add_grant id run runs = count_if-cons (has_id id) run runs

grant_counts :
    (id : String) (now : Time) (file file' : File) (grant : Option BenchmarkRun)
    (runs : List BenchmarkRun)
    → Grants now file file' grant
    → grants_of id (add_grant grant runs) + count_if (is_queued id) (runs_of file')
      ≤ grants_of id runs + count_if (is_queued id) (runs_of file)
grant_counts id now file file' none runs h = rw h (omega arith)
grant_counts id now file file' (some run) runs h =
    omega (arith, grants-add_grant id run runs, Claimed-counts id now _ _ run h.0)

-- A save that does not put its run back to the queue.
abbrev pub LeavesQueue : BenchmarkRun → Type 0
LeavesQueue run = status_eq run.status queued ≡ false

module _ (sort : Sort) (keeps : KeepsRecords sort) where
  step_counts :
      (id : String) (call : Call) (file : File) (runs : List BenchmarkRun)
      → SavesOnly LeavesQueue call
      → let (file', grant) = perform sort call file in
        grants_of id (add_grant grant runs) + count_if (is_queued id) (runs_of file')
        ≤ grants_of id runs + count_if (is_queued id) (runs_of file)
  unfolding perform
  step_counts id (save os run) file runs h = elim (save_run-Replaced os run file) [
    | inl same ↦ rw same (omega arith)
    | inr one ↦ omega (arith, Replaced-counts id run _ _ h one)
  ]
  step_counts id (claim os now i) file runs h =
      grant_counts id now file _ _ runs (claim_run-Grants os now i file).0
  step_counts id (claim_next os now) file runs h =
      grant_counts id now file _ _ runs (claim_next_queued_run-Grants sort keeps os now file)

  -- Whatever calls any number of processes make, in any order, as long as no save puts a run back
  -- to the queue: each time that a run of an id is handed out to be executed, one queued record of
  -- that id is used up, so a run that is queued once is handed out at most once.
  pub claims_once :
      (id : String) (calls : List Call) (file : File)
      → All (SavesOnly LeavesQueue) calls
      → let (file', grants) = perform_all sort calls file in
        grants_of id grants + count_if (is_queued id) (runs_of file')
        ≤ count_if (is_queued id) (runs_of file)
  unfolding perform_all
  claims_once id [] file h = omega (arith, count_if-nil (has_id id))
  claims_once id (call ∷ calls) file h =
      let (file', grant) = perform sort call file in
      let (file'', grants) = perform_all sort calls file' in
      omega (arith, step_counts id call file grants h.0, claims_once id calls file' h.1)

-- Saves by which a finished run stays finished.
abbrev pub SavesTerminal : BenchmarkRun → Type 0
SavesTerminal run = is_terminal run.status ≡ true

kept_status :
    (id : String) (st : RunStatus) (was run : BenchmarkRun)
    → is_terminal st ≡ true
    → is_terminal run.status ≡ true
    → was.run_id ≡ run.run_id
    → (is_terminal was.status && is_terminal run.status && not (status_eq was.status run.status))
      ≡ false
    → bit (has_status id st was) ≤ bit (has_status id st run)
kept_status id st was run t r same c = elim (Bool-cases (status_eq was.status st)) [
  | inr e ↦ omega (arith, bit-and_false (str_eq was.run_id id) (status_eq was.status st) e)
  | inl e ↦
      let s : was.status ≡ st = status_eq→eq was.status st e in
      let u : was.status ≡ run.status =
        guard_keeps_terminal was.status run.status (ap is_terminal s ∙ t) r c in
      omega (
        arith,
        ap (λ i. bit (str_eq i id && status_eq was.status st)) same,
        ap (λ v. bit (str_eq run.run_id id && status_eq v st)) u,
      )
]

not_queued : (st : RunStatus) → is_terminal st ≡ true → status_eq queued st ≡ false
not_queued st h = ground arith

Claimed-keeps :
    (id : String) (st : RunStatus) (now : Time) (old new : List BenchmarkRun) (got : BenchmarkRun)
    → is_terminal st ≡ true
    → Claimed now old got new
    → count_if (has_status id st) old ≤ count_if (has_status id st) new
Claimed-keeps id st now old new got t (was, q, e, counts) = omega (
  arith,
  counts (has_status id st),
  bit-and_false (str_eq was.run_id id) (status_eq was.status st)
      (rw (status_eq→eq was.status queued q) (not_queued st t)),
)

Grants-keep :
    (id : String) (st : RunStatus) (now : Time) (file file' : File) (grant : Option BenchmarkRun)
    → is_terminal st ≡ true
    → Grants now file file' grant
    → count_if (has_status id st) (runs_of file) ≤ count_if (has_status id st) (runs_of file')
Grants-keep id st now file file' none t h = rw h (omega arith)
Grants-keep id st now file file' (some run) t h = Claimed-keeps id st now _ _ run t h.0

module _ (sort : Sort) (keeps : KeepsRecords sort) (id : String) (st : RunStatus)
    (t : is_terminal st ≡ true) where
  step_keeps :
      (call : Call) (file : File)
      → SavesOnly SavesTerminal call
      → count_if (has_status id st) (runs_of file)
        ≤ count_if (has_status id st) (runs_of (perform sort call file).0)
  unfolding perform
  step_keeps (save os run) file h = elim (save_run-Replaced os run file) [
    | inl same ↦ rw same (omega arith)
    | inr (was, same, c, counts) ↦
        omega (arith, counts (has_status id st), kept_status id st was run t h same c)
  ]
  step_keeps (claim os now i) file h =
      Grants-keep id st now file _ _ t (claim_run-Grants os now i file).0
  step_keeps (claim_next os now) file h =
      Grants-keep id st now file _ _ t (claim_next_queued_run-Grants sort keeps os now file)

  -- A run stored with a terminal status keeps that status, whatever claims and saves of terminal
  -- runs follow, in any order: of two that race to end a run, the first to be stored wins.
  pub first_terminal_wins :
      (calls : List Call) (file : File)
      → All (SavesOnly SavesTerminal) calls
      → count_if (has_status id st) (runs_of file)
        ≤ count_if (has_status id st) (runs_of (perform_all sort calls file).0)
  unfolding perform_all
  first_terminal_wins [] file h = omega arith
  first_terminal_wins (call ∷ calls) file h =
      omega
        (arith, step_keeps call file h.0, first_terminal_wins calls (perform sort call file).0 h.1)
