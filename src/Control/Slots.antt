-- ===== src/Control/Slots.antt =====
-- services/control-panel/internal/run/manager.go: its slots and its cancel
-- functions.
use quant_dominater.Base.{
  ℕ, ◌+◌, ◌≤◌, ◌<◌, String, true, Option, none, some, ◌∷◌, ◌≡◌, inl, inr, refl, sym, ap, subst, ◌∙◌,
  str_eq, length, arith, Bool-cases, Option-cases, ltb, ltb→lt,
}
use quant_dominater.Base.Keys.{has_key, remove_cancel, has_cancel, has_cancel-remove_cancel}
use quant_dominater.Orchestrator.Store.{Error, Result, ok, err, ◌or_else◌}
use quant_dominater.Control.Model.{RunRequest, BenchmarkRun, is_terminal}
use quant_dominater.Control.Requests.{normalize_request}
use quant_dominater.Control.Store.{File, save}
use quant_dominater.Control.Manager.{
  Manager, Answers, new_run, take_slot, give_slot, launch, launch_saved, create_in_slot,
  create_normalized, create_run, CancelAnswers, cancelled_at, call_cancel, reply_cancel,
  cancel_read,
}

abbrev pub run_key : BenchmarkRun → String
run_key run = run.run_id

-- Every slot in use belongs to a run that executes, there are at most eight, and a cancel function is
-- that of such a run.
pub record Tidy (m : Manager) : Type 0 where
  pub counted : m.slots ≡ length m.live
  pub bounded : m.slots ≤ 8
  pub owned : (id : String) → has_cancel id m.cancels ≡ true → has_key run_key id m.live ≡ true

-- The manager after a call that has failed or changed only the file.
pub record SameRuns (m m' : Manager) : Type 0 where
  pub slots : m'.slots ≡ m.slots
  pub live : m'.live ≡ m.live
  pub cancels : m'.cancels ≡ m.cancels

pub SameRuns-Tidy : (m m' : Manager) → SameRuns m m' → Tidy m → Tidy m'
SameRuns-Tidy m m' s t = record {
  counted = s.slots ∙ t.counted ∙ ap length (sym s.live);
  bounded = subst (λ (n : ℕ). n ≤ 8) (sym s.slots) t.bounded;
  owned = λ id h.
      subst (λ l. has_key run_key id l ≡ true) (sym s.live)
        (t.owned id (subst (λ l. has_cancel id l ≡ true) s.cancels h));
}

-- What becomes of the runs in a `CreateRun`, by how it ended.
abbrev pub Creates : Answers → Manager → Result BenchmarkRun × Manager → Type 0
Creates a m (err e, m') = SameRuns m m'
Creates a m (ok run, m') =
    (m.slots < 8)
    × (m'.slots ≡ m.slots + 1)
    × (m'.live ≡ run ∷ m.live)
    × (run.run_id ≡ a.run_id)
    × (m'.cancels ≡ run.run_id ∷ remove_cancel run.run_id m.cancels)

launch_saved-Creates :
    (a : Answers) (run : BenchmarkRun) (saved : File × Option Error) (m : Manager)
    → m.slots < 8
    → run.run_id ≡ a.run_id
    → Creates a m (launch_saved a run saved (take_slot m))
launch_saved-Creates a run (file, e) m room id =
    elim ((e or_else a.run_spec) or_else a.config)
      as (λ o. Creates a m (elim o [
        | some x ↦ (err x, give_slot (record (take_slot m) { file = file }))
        | none ↦ (ok run, launch run (record (take_slot m) { file = file }))
      ])) [
        | some x ↦ record { slots = omega arith; live = refl; cancels = refl }
        | none ↦ (room, refl, refl, id, refl)
      ]

create_in_slot-Creates :
    (a : Answers) (req : RunRequest) (m : Manager)
    → m.slots < 8
    → Creates a m (create_in_slot a req (take_slot m))
create_in_slot-Creates a req m room = elim (Option-cases (a.mkdir or_else a.placeholders)) [
  | inl e ↦ rw (e, create_in_slot) (launch_saved-Creates a (new_run a req) _ m room refl)
  | inr (x, e) ↦
      rw (e, create_in_slot) (record { slots = omega arith; live = refl; cancels = refl })
]

create_normalized-Creates :
    (a : Answers) (r : Result RunRequest) (m : Manager) → Creates a m (create_normalized a r m)
create_normalized-Creates a (err e) m = record { slots = refl; live = refl; cancels = refl }
create_normalized-Creates a (ok req) m = elim (Bool-cases (ltb m.slots 8)) [
  | inl e ↦ rw (e, create_normalized) (create_in_slot-Creates a req m (ltb→lt m.slots 8 e))
  | inr e ↦ rw (e, create_normalized) (record { slots = refl; live = refl; cancels = refl })
]

pub create_run-Creates :
    (a : Answers) (req : RunRequest) (m : Manager) → Creates a m (create_run a req m)
unfolding create_run
create_run-Creates a req m = create_normalized-Creates a (normalize_request req) m

pub created-Tidy :
    (a : Answers) (m : Manager) (r : Result BenchmarkRun × Manager)
    → Creates a m r
    → Tidy m
    → Tidy r.1
created-Tidy a m (err e, m') s t = SameRuns-Tidy m m' s t
created-Tidy a m (ok run, m') (room, slots, live, id, cancels) t = record {
  counted = omega (arith, slots, t.counted, ap length live);
  bounded = omega (arith, slots);
  owned = λ id.
      rw (cancels, live)
        (elim (Bool-cases (str_eq run.run_id id)) [
          | inl e ↦ rw (e, has_key) (λ h. refl)
          | inr e ↦
              rw (e, has_key, has_cancel)
                (λ h. t.owned id (has_cancel-remove_cancel id run.run_id m.cancels h).1)
        ]);
}

call_cancel-SameRuns : (id : String) (m : Manager) → SameRuns m (call_cancel id m)
call_cancel-SameRuns id m = elim (Bool-cases (has_cancel id m.cancels)) [
  | inl e ↦ rw (e, call_cancel) (record { slots = refl; live = refl; cancels = refl })
  | inr e ↦ rw (e, call_cancel) (record { slots = refl; live = refl; cancels = refl })
]

reply_cancel-SameRuns :
    (run : BenchmarkRun) (saved : File × Option Error) (m m' : Manager)
    → SameRuns m m'
    → SameRuns m (reply_cancel run saved m').1
reply_cancel-SameRuns run (file, some e) m m' s = record {
  slots = s.slots;
  live = s.live;
  cancels = s.cancels;
}
reply_cancel-SameRuns run (file, none) m m' s = record {
  slots = s.slots;
  live = s.live;
  cancels = s.cancels;
}

pub cancel_read-SameRuns :
    (c : CancelAnswers) (id : String) (r : Result BenchmarkRun) (m : Manager)
    → SameRuns m (cancel_read c id r m).1
cancel_read-SameRuns c id (err e) m = record { slots = refl; live = refl; cancels = refl }
cancel_read-SameRuns c id (ok run) m = elim (Bool-cases (is_terminal run.status)) [
  | inl e ↦ rw (e, cancel_read) (record { slots = refl; live = refl; cancels = refl })
  | inr e ↦
      rw (e, cancel_read)
        (reply_cancel-SameRuns (cancelled_at c.now run)
          (save c.os c.order (cancelled_at c.now run) (c.others m.file)) m (call_cancel id m)
          (call_cancel-SameRuns id m))
]
