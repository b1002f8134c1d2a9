-- ===== src/Submissions/Claimed.antt =====
-- A requested run on its way from services/submission-api/internal/api/handler.go to the claim in
-- services/orchestrator/internal/store/json_store.go.
use mathlib.Core.Option
use quant_dominater.Base.{
  String, true, false, ◌&&◌, Option, none, some, List, [], ◌∷◌, ◌≡◌, refl, sym, ap, ◌∙◌, inl, inr,
  subst, str_eq, Bool-cases, Option-cases,
}
use quant_dominater.Base.Float.{is_finite}
use quant_dominater.Orchestrator.Model.{
  Time, Submission, BenchmarkRun, queued, building, touch, is_terminal, status_eq,
}
use quant_dominater.Orchestrator.Limits.{
  normalize_config, WithinLimits, normalize_config-WithinLimits,
}
use quant_dominater.Orchestrator.Store.{
  Os, Error, Result, ok, err, Snapshot, File, load_locked, scores_finite, find_run, found, get_run,
  get_submission, Claiming, taken, skip, claim_this, claim_in, claim_run, finish_claim, reply_claim,
  write_locked, marshal, locked_snapshot, acquire_file_lock, Reply,
}
use quant_dominater.Orchestrator.Store.Calls.{runs_of, runs_of-loaded}
use quant_dominater.Orchestrator.Store.Saves.{find_run-cons_ne, find_run-cons_self, get_run-holds}
use quant_dominater.Submissions.Handler.{
  CreateRunRequest, normalize_run_request, Response, answers, refuses, Body, read_body, RunAnswers,
  queued_run, reply_run, create_run_of, request_run,
}
use quant_dominater.Submissions.Upserts.{Puts, put_run-Puts}

-- The claim of a queued run finds it, and leaves a list that can be encoded.
abbrev Takes : Time → BenchmarkRun → List BenchmarkRun → Claiming → Type 0
Takes now run runs (taken got new) =
    (got ≡ touch now building run) × (scores_finite new ≡ scores_finite runs)
Takes now run runs other = ⊥

skip-Takes :
    (now : Time) (run r : BenchmarkRun) (runs : List BenchmarkRun) (c : Claiming)
    → Takes now run runs c
    → Takes now run (r ∷ runs) (skip r c)
unfolding scores_finite
skip-Takes now run r runs (taken got new) (e, f) = (e, ap (λ b. is_finite r.score && b) f)
skip-Takes now run r runs Claiming.no_match h = elim h [ ]
skip-Takes now run r runs (Claiming.closed _) h = elim h [ ]
skip-Takes now run r runs (Claiming.busy _) h = elim h [ ]

claim_this-Takes :
    (now : Time) (run r : BenchmarkRun) (runs : List BenchmarkRun)
    → r ≡ run
    → run.status ≡ queued
    → Takes now run (r ∷ runs) (claim_this now r runs)
unfolding scores_finite
claim_this-Takes now run r runs e q =
    subst (λ x. Takes now run (x ∷ runs) (claim_this now x runs)) (sym e)
      (rw (ap is_terminal q, claim_this)
        (rw (ap (λ s. status_eq s queued) q, claim_this) (refl, refl)))

claim_in-Takes :
    (now : Time) (id : String) (run : BenchmarkRun) (runs : List BenchmarkRun)
    → find_run id runs ≡ some run
    → run.status ≡ queued
    → Takes now run runs (claim_in now id runs)
unfolding claim_in find_run
claim_in-Takes now id run [] h q = absurd (cc h)
claim_in-Takes now id run (r ∷ rs) h q = elim (Bool-cases (str_eq r.run_id id)) [
  | inl e ↦
      rw (e, claim_in)
        (claim_this-Takes now run r rs (Option.some_inj.0 (sym (find_run-cons_self id r rs e) ∙ h))
          q)
  | inr e ↦
      rw (e, claim_in)
        (skip-Takes now run r rs _
          (claim_in-Takes now id run rs (sym (find_run-cons_ne id r rs e) ∙ h) q))
]

-- An operating system that refuses nothing.
pub record Quiet (os : Os) : Type 0 where
  pub lock_mkdir : os.lock_mkdir ≡ none
  pub lock_open : os.lock_open ≡ none
  pub flock : os.flock ≡ none
  pub mkdir : os.mkdir ≡ none
  pub write_file : os.write_file ≡ none
  pub rename : os.rename ≡ none

get_run-failed :
    (id : String) (file : File) (e : Error) → load_locked file ≡ err e → get_run id file ≡ err e
unfolding get_run
get_run-failed id file e h = rw (h, get_run)

module _ (os : Os) (quiet : Quiet os) where
  write_quiet :
      (snap : Snapshot) (file : File)
      → scores_finite snap.runs ≡ true
      → write_locked os snap file ≡ (File.holds snap, none)
  unfolding write_locked
  write_quiet snap file f =
      rw (quiet.mkdir, write_locked)
        (rw (f, marshal)
          (rw (quiet.write_file, write_locked) (rw (quiet.rename, write_locked) refl)))

  lock_quiet :
      {A : Type 0} (file : File) (snap : Snapshot) (fail : Error → A) (next : Snapshot → A)
      → load_locked file ≡ ok snap
      → locked_snapshot os file fail next ≡ next snap
  unfolding locked_snapshot
  lock_quiet file snap fail next h =
      rw (quiet.lock_mkdir, acquire_file_lock)
        (rw (quiet.lock_open, acquire_file_lock)
          (rw (quiet.flock, acquire_file_lock) (rw (h, locked_snapshot) refl)))

  finish_claim-quiet :
      (now : Time) (run : BenchmarkRun) (runs : List BenchmarkRun) (subs : List Submission)
      (c : Claiming) (file : File)
      → Takes now run runs c
      → scores_finite runs ≡ true
      → (finish_claim os subs c file).1 ≡ (some (touch now building run), none)
  finish_claim-quiet now run runs subs (taken got new) file (e, f) finite =
      ap (λ w. (reply_claim got w).1) (write_quiet _ file (f ∙ finite)) ∙ ap (λ g. (some g, none)) e
  finish_claim-quiet now run runs subs Claiming.no_match file h finite = elim h [ ]
  finish_claim-quiet now run runs subs (Claiming.closed _) file h finite = elim h [ ]
  finish_claim-quiet now run runs subs (Claiming.busy _) file h finite = elim h [ ]

  -- A queued run of a file that can be written back is handed out by the claim of its id.
  pub claim_run-queued :
      (now : Time) (id : String) (run : BenchmarkRun) (file : File)
      → get_run id file ≡ ok run
      → run.status ≡ queued
      → scores_finite (runs_of file) ≡ true
      → (claim_run os now id file).1 ≡ (some (touch now building run), none)
  unfolding claim_run
  claim_run-queued now id run file g q finite = from (load_locked file) refl
    where
      found_some : (o : Option BenchmarkRun) → found o ≡ ok run → o ≡ some run
      found_some none e = absurd (cc e)
      found_some (some x) e = cc e

      from :
          (r : Result Snapshot)
          → load_locked file ≡ r
          → (claim_run os now id file).1 ≡ (some (touch now building run), none)
      from (err e) h = absurd (cc (get_run-failed id file e h, g))
      from (ok snap) h =
          ap (λ (p : File × Reply). p.1) (lock_quiet file snap _ _ h)
          ∙ finish_claim-quiet now run snap.runs snap.submissions _ file
              (claim_in-Takes now id run snap.runs
                (found_some _ (sym (get_run-holds id file snap h) ∙ g)) q)
              (subst (λ l. scores_finite l ≡ true) (runs_of-loaded file snap h) finite)

-- What an answer to a request for a run says of the index.
abbrev pub Requested : RunAnswers → String → File → File × Response BenchmarkRun → Type 0
Requested a id file (file', refuses code e) = file' ≡ file
Requested a id file (file', answers code run) =
    (code ≡ 201)
    × (run.run_id ≡ a.run_id)
    × (run.sandbox.network_egress ≡ false)
    × WithinLimits run.config
    × (normalize_config run.config ≡ run.config)
    × ((s : Submission) × (get_submission id file ≡ ok s)
        × (run.team_id ≡ s.team_id)
        × (run.submission_id ≡ s.submission_id))
    × (get_run run.run_id file' ≡ ok run)
    × ((os : Os) (now : Time)
        → Quiet os
        → (claim_run os now run.run_id file').1 ≡ (some (touch now building run), none))

normal_config :
    (req : CreateRunRequest) → (normalize_run_request req).config ≡ normalize_config req.config
unfolding normalize_run_request normalize_config
normal_config req = refl

normal_egress :
    (req : CreateRunRequest) → (normalize_run_request req).sandbox.network_egress ≡ false
unfolding normalize_run_request
normal_egress req = refl

module _ (a : RunAnswers) (id : String) (file : File) (s : Submission)
    (stored : get_submission id file ≡ ok s) (req : CreateRunRequest) where
  abbrev asked : BenchmarkRun
  asked = queued_run a s (normalize_run_request req)

  within : WithinLimits asked.config
  within = subst WithinLimits (sym (normal_config req)) (normalize_config-WithinLimits req.config).0

  reply_run-Requested :
      (saved : File × Option Error)
      → Puts asked file saved
      → Requested a id file (reply_run asked saved)
  reply_run-Requested (file', some e) p = p
  reply_run-Requested (file', none) (reads, others, subs, finite) = (
    refl,
    refl,
    normal_egress req,
    within,
    (normalize_config-WithinLimits asked.config).1 within,
    (s, stored, refl, refl),
    reads,
    λ os now quiet. claim_run-queued os quiet now a.run_id asked file' reads refl finite,
  )

create_run_of-Requested :
    (a : RunAnswers) (id : String) (body : Body) (file : File) (r : Result Submission)
    → get_submission id file ≡ r
    → Requested a id file (create_run_of a body r file)
create_run_of-Requested a id body file (err e) h = refl
create_run_of-Requested a id body file (ok s) h = elim (Option-cases (read_body body)) [
  | inl e ↦ rw (e, create_run_of) refl
  | inr (req, e) ↦
      rw (e, create_run_of)
        (reply_run-Requested a id file s h req _
          (put_run-Puts a.os (queued_run a s (normalize_run_request req)) file))
]

-- A request for a run that is not answered 201 leaves the index as it was. One that is answered so
-- names a run of a stored submission, without network egress and within the limits, which the
-- orchestrator's own limits leave as they are; the index has the run, and a claim of it in the
-- orchestrator, to which the operating system refuses nothing, hands out exactly that run.
pub request_run-Requested :
    (a : RunAnswers) (id : String) (body : Body) (file : File)
    → Requested a id file (request_run a id body file)
unfolding request_run
request_run-Requested a id body file =
    create_run_of-Requested a id body file (get_submission id file) refl
