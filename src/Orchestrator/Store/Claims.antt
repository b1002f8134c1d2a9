-- ===== src/Orchestrator/Store/Claims.antt =====
-- What `ClaimRun` and `ClaimNextQueuedRun` do to the records of the index.
use quant_dominater.Base.{
  ◌+◌, String, Bool, true, false, Option, none, some, List, [], ◌∷◌, ◌≡◌, refl, sym, str_eq,
  str_eq-cases, inl, inr, Bool-cases, if◌then◌else◌, bit, count_if, count_if-cons, arith,
}
use quant_dominater.Orchestrator.Model.{
  Time, BenchmarkRun, queued, building, is_terminal, status_eq, touch,
}
use quant_dominater.Orchestrator.Store.{
  Os, Reply, Snapshot, File, ok, load_locked, Claiming, no_match, closed, busy, taken, skip,
  claim_in, claim_first, claim_run, claim_next_queued_run, finish_claim, reply_claim, Sort,
}
use quant_dominater.Orchestrator.Store.Calls.{
  locked_snapshot_lem, write_locked_lem, runs_of, runs_of-loaded, submissions_of,
  submissions_of-loaded,
}

-- One record that was queued is claimed: in `new` it stands as `got`, and nothing else differs,
-- as every count of records shows.
abbrev pub Claimed : Time → List BenchmarkRun → BenchmarkRun → List BenchmarkRun → Type 0
Claimed now old got new =
    (was : BenchmarkRun) × (status_eq was.status queued ≡ true)
    × (got ≡ touch now building was)
    × ((p : BenchmarkRun → Bool) → count_if p new + bit (p was) ≡ count_if p old + bit (p got))

abbrev ClaimedBy : Time → List BenchmarkRun → Claiming → Type 0
ClaimedBy now old (taken got new) = Claimed now old got new
ClaimedBy now old (closed run) = is_terminal run.status ≡ true
ClaimedBy now old other = Unit

skip-ClaimedBy :
    (now : Time) (old : List BenchmarkRun) (run : BenchmarkRun) (c : Claiming)
    → ClaimedBy now old c
    → ClaimedBy now (run ∷ old) (skip run c)
skip-ClaimedBy now old run (taken got new) (was, q, e, counts) =
    (was, q, e, λ p. omega (arith, counts p, count_if-cons p run new, count_if-cons p run old))
skip-ClaimedBy now old run (closed r) h = h
skip-ClaimedBy now old run (busy r) h = h
skip-ClaimedBy now old run no_match h = h

claim_head :
    (now : Time) (run : BenchmarkRun) (runs : List BenchmarkRun)
    → status_eq run.status queued ≡ true
    → Claimed now (run ∷ runs) (touch now building run) (touch now building run ∷ runs)
claim_head now run runs h = (
  run,
  h,
  refl,
  λ p. omega (arith, count_if-cons p run runs, count_if-cons p (touch now building run) runs),
)

claim_in-ClaimedBy :
    (now : Time) (id : String) (runs : List BenchmarkRun)
    → ClaimedBy now runs (claim_in now id runs)
unfolding claim_in
claim_in-ClaimedBy now id [] = tt
claim_in-ClaimedBy now id (run ∷ runs) = elim (Bool-cases (str_eq run.run_id id)) [
  | inl e ↦ elim (Bool-cases (is_terminal run.status)) [
    | inl t ↦ rw (e, t, claim_in) t
    | inr t ↦ elim (Bool-cases (status_eq run.status queued)) [
      | inl q ↦ rw (e, t, q, claim_in) (claim_head now run runs q)
      | inr q ↦ rw (e, t, q, claim_in) tt
    ]
  ]
  | inr e ↦ rw (e, claim_in) (skip-ClaimedBy now runs run _ (claim_in-ClaimedBy now id runs))
]

claim_first-ClaimedBy :
    (now : Time) (runs : List BenchmarkRun) → ClaimedBy now runs (claim_first now runs)
unfolding claim_first
claim_first-ClaimedBy now [] = tt
claim_first-ClaimedBy now (run ∷ runs) = elim (Bool-cases (status_eq run.status queued)) [
  | inl q ↦ rw (q, claim_first) (claim_head now run runs q)
  | inr q ↦ rw (q, claim_first) (skip-ClaimedBy now runs run _ (claim_first-ClaimedBy now runs))
]

-- The run that a reply hands out to be executed: `StartRun` gives a terminal one back unstarted.
abbrev pub granted : Reply → Option BenchmarkRun
granted (some run, none) = if is_terminal run.status then none else some run
granted other = none

-- A claim hands out one queued run and leaves the submissions, or leaves the file as it was.
abbrev pub Grants : Time → File → File → Option BenchmarkRun → Type 0
Grants now file file' none = file' ≡ file
Grants now file file' (some run) =
    Claimed now (runs_of file) run (runs_of file') × (submissions_of file' ≡ submissions_of file)

abbrev GrantsOf : Time → File → File × Reply → Type 0
GrantsOf now file (file', reply) = Grants now file file' (granted reply)

-- What was claimed is not terminal, so it is handed out.
Claimed-live :
    (now : Time) (old new : List BenchmarkRun) (got : BenchmarkRun)
    → Claimed now old got new
    → is_terminal got.status ≡ false
Claimed-live now old new got (was, q, e, counts) = rw e refl

finish_claim-GrantsOf :
    (os : Os) (now : Time) (file : File) (snap : Snapshot) (c : Claiming)
    → load_locked file ≡ ok snap
    → ClaimedBy now (runs_of file) c
    → GrantsOf now file (finish_claim os snap.submissions c file)
finish_claim-GrantsOf os now file snap no_match loaded h = refl
finish_claim-GrantsOf os now file snap (closed run) loaded h = rw h refl
finish_claim-GrantsOf os now file snap (busy run) loaded h = refl
finish_claim-GrantsOf os now file snap (taken run runs) loaded h =
    write_locked_lem (λ r. GrantsOf now file (reply_claim run r)) os _ file (λ x. refl)
      (rw (Claimed-live now (runs_of file) runs run h)
        (h, sym (submissions_of-loaded file snap loaded)))

-- The run that is handed out is the one that was asked for.
abbrev pub Names : String → Option BenchmarkRun → Type 0
Names id none = Unit
Names id (some run) = run.run_id ≡ id

abbrev TakenNames : String → Claiming → Type 0
TakenNames id (taken got new) = got.run_id ≡ id
TakenNames id other = Unit

skip-TakenNames :
    (id : String) (run : BenchmarkRun) (c : Claiming) → TakenNames id c → TakenNames id (skip run c)
skip-TakenNames id run (taken got new) h = h
skip-TakenNames id run (closed r) h = tt
skip-TakenNames id run (busy r) h = tt
skip-TakenNames id run no_match h = tt

claim_in-TakenNames :
    (now : Time) (id : String) (runs : List BenchmarkRun) → TakenNames id (claim_in now id runs)
unfolding claim_in
claim_in-TakenNames now id [] = tt
claim_in-TakenNames now id (run ∷ runs) = elim (str_eq-cases run.run_id id) [
  | inl (e, p) ↦ elim (Bool-cases (is_terminal run.status)) [
    | inl t ↦ rw (e, t, claim_in) tt
    | inr t ↦ elim (Bool-cases (status_eq run.status queued)) [
      | inl q ↦ rw (e, t, q, claim_in) p
      | inr q ↦ rw (e, t, q, claim_in) tt
    ]
  ]
  | inr e ↦ rw (e, claim_in) (skip-TakenNames id run _ (claim_in-TakenNames now id runs))
]

finish_claim-Names :
    (os : Os) (now : Time) (id : String) (file : File) (snap : Snapshot) (c : Claiming)
    → TakenNames id c
    → ClaimedBy now (runs_of file) c
    → Names id (granted (finish_claim os snap.submissions c file).1)
finish_claim-Names os now id file snap no_match n h = tt
finish_claim-Names os now id file snap (closed run) n h = rw h tt
finish_claim-Names os now id file snap (busy run) n h = tt
finish_claim-Names os now id file snap (taken run runs) n h =
    write_locked_lem (λ r. Names id (granted (reply_claim run r).1)) os _ file (λ x. tt)
      (rw (Claimed-live now (runs_of file) runs run h) n)

claim_run-Names :
    (os : Os) (now : Time) (id : String) (file : File)
    → Names id (granted (claim_run os now id file).1)
unfolding claim_run
claim_run-Names os now id file =
    locked_snapshot_lem (λ (r : File × Reply). Names id (granted r.1)) os file (λ e. tt)
      (λ snap loaded.
        finish_claim-Names os now id file snap (claim_in now id snap.runs)
          (claim_in-TakenNames now id snap.runs)
          (rw (runs_of-loaded file snap loaded) (claim_in-ClaimedBy now id snap.runs)))

claim_run_changes :
    (os : Os) (now : Time) (id : String) (file : File)
    → let (file', reply) = claim_run os now id file in Grants now file file' (granted reply)
unfolding claim_run
claim_run_changes os now id file =
    locked_snapshot_lem (GrantsOf now file) os file (λ e. refl)
      (λ snap loaded.
        finish_claim-GrantsOf os now file snap (claim_in now id snap.runs) loaded
          (rw (runs_of-loaded file snap loaded) (claim_in-ClaimedBy now id snap.runs)))

-- A call of `ClaimRun` that hands a run out has turned one queued record into that run, stamped as
-- building, and changed no other record and no submission of the index, and the run has the id that
-- was asked for; any other call leaves the index file as it was.
pub claim_run-Grants :
    (os : Os) (now : Time) (id : String) (file : File)
    → let (file', reply) = claim_run os now id file in
      Grants now file file' (granted reply) × Names id (granted reply)
claim_run-Grants os now id file = (claim_run_changes os now id file, claim_run-Names os now id file)

-- What `sort.Slice` promises of the records: each is there as often as before.
abbrev pub KeepsRecords : Sort → Type 0
KeepsRecords sort =
    (runs : List BenchmarkRun) (p : BenchmarkRun → Bool) → count_if p (sort runs) ≡ count_if p runs

module _ (sort : Sort) (keeps : KeepsRecords sort) where
  unsort-ClaimedBy :
      (now : Time) (runs : List BenchmarkRun) (c : Claiming)
      → ClaimedBy now (sort runs) c
      → ClaimedBy now runs c
  unsort-ClaimedBy now runs (taken got new) (was, q, e, counts) =
      (was, q, e, λ p. omega (arith, counts p, keeps runs p))
  unsort-ClaimedBy now runs (closed run) h = h
  unsort-ClaimedBy now runs (busy run) h = tt
  unsort-ClaimedBy now runs no_match h = tt

  -- A call of `ClaimNextQueuedRun` that hands a run out has turned one queued record into that run,
  -- stamped as building, and changed no other record and no submission of the index, but for the order
  -- of the records; any other call leaves the index file as it was.
  pub claim_next_queued_run-Grants :
      (os : Os) (now : Time) (file : File)
      → let (file', reply) = claim_next_queued_run sort os now file in
        Grants now file file' (granted reply)
  unfolding claim_next_queued_run
  claim_next_queued_run-Grants os now file =
      locked_snapshot_lem (GrantsOf now file) os file (λ e. refl)
        (λ snap loaded.
          finish_claim-GrantsOf os now file snap (claim_first now (sort snap.runs)) loaded (
            rw (runs_of-loaded file snap loaded)
              (unsort-ClaimedBy now snap.runs _ (claim_first-ClaimedBy now (sort snap.runs)))))
