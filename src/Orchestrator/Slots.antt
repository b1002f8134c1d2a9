-- ===== src/Orchestrator/Slots.antt =====
-- services/orchestrator/internal/orchestrator/manager.go: build slots and cancel functions.
use quant_dominater.Base.{
  ◌≤◌, ◌<◌, String, Bool, true, false, Option, none, some, List, [], ◌∷◌, ◌≡◌, inl, inr, refl, ap,
  str_eq, length, All, arith, Bool-cases,
}
use quant_dominater.Base.Keys.{has_key, has_cancel, has_cancel-remove_cancel}
use quant_dominater.Orchestrator.Model.{
  Time, BenchmarkRun, Submission, building, queued, status_eq, is_terminal,
}
use quant_dominater.Orchestrator.Store.{
  Os, Error, Result, ok, err, Reply, File, Sort, claim_run, claim_next_queued_run, Claiming,
  no_match, closed, busy, taken, skip, claim_first, reply_claim, finish_claim,
}
use quant_dominater.Orchestrator.Store.Calls.{locked_snapshot_lem}
use quant_dominater.Orchestrator.Store.Claims.{Grants, granted, claim_run-Grants}
use quant_dominater.Orchestrator.Manager.{
  Manager, Acquire, slot, ctx_done, take_slot, give_slot, launch_run, start_claimed, start_run,
  start_next_claimed, start_next_queued, cancel_read,
}

abbrev pub has_run : String → List BenchmarkRun → Bool
has_run = has_key (λ (r : BenchmarkRun). r.run_id)

-- Every build slot in use belongs to a run that is executing, there are never more than the capacity,
-- and a cancel function is that of such a run.
pub record Tidy (m : Manager) : Type 0 where
  pub counted : m.slots ≡ length m.live
  pub bounded : m.slots ≤ m.capacity
  pub claimed : All (λ (r : BenchmarkRun). r.status ≡ building) m.live
  pub owned : (id : String) → has_cancel id m.cancels ≡ true → has_run id m.live ≡ true

launch_run-Tidy :
    (run : BenchmarkRun) (m : Manager)
    → m.slots < m.capacity
    → run.status ≡ building
    → Tidy m
    → Tidy (launch_run run (take_slot m))
launch_run-Tidy run m room b t = record {
  counted = omega (arith, t.counted);
  bounded = omega arith;
  claimed = (b, t.claimed);
  owned = λ id. elim (Bool-cases (str_eq run.run_id id)) [
    | inl e ↦ rw (e, has_key) (λ h. refl)
    | inr e ↦
        rw (e, has_key, has_cancel)
          (λ h. t.owned id (has_cancel-remove_cancel id run.run_id m.cancels h).1)
  ];
}

-- A slot that is taken and given back.
returned-Tidy : (m : Manager) → Tidy m → Tidy (give_slot (take_slot m))
returned-Tidy m t = record {
  counted = omega (arith, t.counted);
  bounded = omega (arith, t.bounded);
  claimed = t.claimed;
  owned = t.owned;
}

-- A claim hands out only runs that it has just put into the status of building.
granted_building :
    (now : Time) (file file' : File) (run : BenchmarkRun)
    → is_terminal run.status ≡ false
    → Grants now file file' (granted (some run, none))
    → run.status ≡ building
granted_building now file file' run t =
    rw (t, granted) (λ g. ap (λ (r : BenchmarkRun). r.status) g.0.2)

start_claimed-Tidy :
    (now : Time) (file file' : File) (reply : Reply) (m : Manager)
    → Grants now file file' (granted reply)
    → m.slots < m.capacity
    → Tidy m
    → Tidy (start_claimed reply (take_slot m)).1
start_claimed-Tidy now file file' (none, some e) m g room t = returned-Tidy m t
start_claimed-Tidy now file file' (some run, some e) m g room t = returned-Tidy m t
start_claimed-Tidy now file file' (none, none) m g room t = returned-Tidy m t
start_claimed-Tidy now file file' (some run, none) m g room t =
    elim (Bool-cases (is_terminal run.status)) [
      | inl e ↦ rw (e, start_claimed) (returned-Tidy m t)
      | inr e ↦
          rw (e, start_claimed)
            (launch_run-Tidy run m room (granted_building now file file' run e g) t)
    ]

-- What is done to the index has no part in it.
with_file-Tidy : (m : Manager) (file : File) → Tidy m → Tidy (record m { file = file })
with_file-Tidy m file t = record {
  counted = t.counted;
  bounded = t.bounded;
  claimed = t.claimed;
  owned = t.owned;
}

-- `sem <-` goes on only where a slot is free.
abbrev pub CanAcquire : Acquire → Manager → Type 0
CanAcquire slot m = m.slots < m.capacity
CanAcquire (ctx_done e) m = Unit

pub start_run-Tidy :
    (a : Acquire) (os : Os) (now : Time) (id : String) (m : Manager)
    → CanAcquire a m
    → Tidy m
    → Tidy (start_run a os now id m).1
unfolding start_run
start_run-Tidy (ctx_done e) os now id m room t = t
start_run-Tidy slot os now id m room t =
    start_claimed-Tidy now m.file (claim_run os now id m.file).0 (claim_run os now id m.file).1
      (record m { file = (claim_run os now id m.file).0 }) (claim_run-Grants os now id m.file).0
      room (with_file-Tidy m _ t)

-- How the search for the oldest queued run ends.
abbrev Fresh : Claiming → Type 0
Fresh no_match = Unit
Fresh (closed run) = ⊥
Fresh (busy run) = ⊥
Fresh (taken run runs) = run.status ≡ building

skip-Fresh : (run : BenchmarkRun) (c : Claiming) → Fresh c → Fresh (skip run c)
skip-Fresh run no_match h = tt
skip-Fresh run (closed _) h = elim h [ ]
skip-Fresh run (busy _) h = elim h [ ]
skip-Fresh run (taken got runs) h = h

claim_first-Fresh : (now : Time) (runs : List BenchmarkRun) → Fresh (claim_first now runs)
unfolding claim_first
claim_first-Fresh now [] = tt
claim_first-Fresh now (run ∷ runs) = elim (Bool-cases (status_eq run.status queued)) [
  | inl e ↦ rw (e, claim_first) refl
  | inr e ↦ rw (e, claim_first) (skip-Fresh run _ (claim_first-Fresh now runs))
]

abbrev Claimable : File × Reply → Type 0
Claimable (file, (some run, none)) = run.status ≡ building
Claimable (file, other) = Unit

reply_claim-Claimable :
    (run : BenchmarkRun) (r : File × Option Error)
    → run.status ≡ building
    → Claimable (reply_claim run r)
reply_claim-Claimable run (file, none) h = h
reply_claim-Claimable run (file, some e) h = tt

finish_claim-Claimable :
    (os : Os) (subs : List Submission) (c : Claiming) (file : File)
    → Fresh c
    → Claimable (finish_claim os subs c file)
finish_claim-Claimable os subs no_match file h = tt
finish_claim-Claimable os subs (closed _) file h = elim h [ ]
finish_claim-Claimable os subs (busy _) file h = elim h [ ]
finish_claim-Claimable os subs (taken run runs) file h = reply_claim-Claimable run _ h

claim_next_queued_run-Claimable :
    (sort : Sort) (os : Os) (now : Time) (file : File)
    → Claimable (claim_next_queued_run sort os now file)
unfolding claim_next_queued_run
claim_next_queued_run-Claimable sort os now file =
    locked_snapshot_lem Claimable os file (λ e. tt)
      (λ snap loaded.
        finish_claim-Claimable os snap.submissions _ file (claim_first-Fresh now (sort snap.runs)))

start_next_claimed-Tidy :
    (file : File) (reply : Reply) (m : Manager)
    → Claimable (file, reply)
    → m.slots < m.capacity
    → Tidy m
    → Tidy (start_next_claimed reply (take_slot m)).1
start_next_claimed-Tidy file (none, some e) m c room t = returned-Tidy m t
start_next_claimed-Tidy file (some run, some e) m c room t = returned-Tidy m t
start_next_claimed-Tidy file (none, none) m c room t = returned-Tidy m t
start_next_claimed-Tidy file (some run, none) m c room t = launch_run-Tidy run m room c t

pub start_next_queued-Tidy :
    (sort : Sort) (a : Acquire) (os : Os) (now : Time) (m : Manager)
    → CanAcquire a m
    → Tidy m
    → Tidy (start_next_queued sort a os now m).1
unfolding start_next_queued
start_next_queued-Tidy sort (ctx_done e) os now m room t = t
start_next_queued-Tidy sort slot os now m room t =
    start_next_claimed-Tidy (claim_next_queued_run sort os now m.file).0
      (claim_next_queued_run sort os now m.file).1
      (record m { file = (claim_next_queued_run sort os now m.file).0 })
      (claim_next_queued_run-Claimable sort os now m.file) room (with_file-Tidy m _ t)

pub cancel_read-Tidy :
    (others : File → File) (os : Os) (now : Time) (id : String) (r : Result BenchmarkRun)
    (m : Manager)
    → Tidy m
    → Tidy (cancel_read others os now id r m).1
cancel_read-Tidy others os now id (err e) m t = t
cancel_read-Tidy others os now id (ok run) m t = elim (Bool-cases (is_terminal run.status)) [
  | inl e ↦ rw (e, cancel_read) t
  | inr e ↦
      rw (e, cancel_read)
        (record { counted = t.counted; bounded = t.bounded; claimed = t.claimed; owned = t.owned })
]
