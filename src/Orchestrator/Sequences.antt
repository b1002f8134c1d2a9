-- ===== src/Orchestrator/Sequences.antt =====
-- services/orchestrator/internal/orchestrator/manager.go: the manager over any sequence of calls.
use quant_dominater.Base.{
  ℕ, String, true, some, [], ◌≡◌, inl, inr, refl, ap, subst, ◌∙◌, length, get_elem?, drop_at,
  length-drop_at, All-drop_at, arith, Option-cases,
}
use quant_dominater.Base.Keys.{has_key-drop_at, has_cancel, has_cancel-remove_cancel, no_cancels}
use quant_dominater.Orchestrator.Model.{Time, BenchmarkRun, building}
use quant_dominater.Orchestrator.Store.{Os, File, Sort}
use quant_dominater.Orchestrator.Execute.World.{Env}
use quant_dominater.Orchestrator.Execute.Run.{execute}
use quant_dominater.Orchestrator.Execute.Ending.{execute-Executed}
use quant_dominater.Orchestrator.Manager.{
  Manager, Acquire, start_run, start_next_queued, world_of, finish_run, cancel_run, shutdown,
}
use quant_dominater.Orchestrator.Slots.{
  has_run, Tidy, CanAcquire, start_run-Tidy, start_next_queued-Tidy, cancel_read-Tidy,
}

module _ (run : BenchmarkRun) where
  finished-Tidy :
      (env : Env) (i : ℕ) (m : Manager)
      → get_elem? m.live i ≡ some run
      → Tidy m
      → let w = execute env (world_of run m) in
        Tidy (record m {
          file = w.file;
          cancels = w.cancels;
          slots = w.slots;
          live = drop_at i m.live;
        })
  finished-Tidy env i m h t =
      let (b, rest) =
        All-drop_at (λ (r : BenchmarkRun). r.status ≡ building) run i m.live h t.claimed in
      let x =
        execute-Executed env (world_of run m)
          (record { status = b; engine = refl; trail = refl; events = refl }) in
      record {
        counted = omega (arith, x.slot_freed, length-drop_at run i m.live h, t.counted);
        bounded = omega (arith, x.slot_freed, t.bounded);
        claimed = rest;
        owned = λ id k.
            let (ne, old) =
              has_cancel-remove_cancel id run.run_id m.cancels
                (subst (λ ks. has_cancel id ks ≡ true) x.cancel_dropped k) in
            has_key-drop_at (λ (r : BenchmarkRun). r.run_id) run id i m.live h ne (t.owned id old);
      }

finish_run-Tidy : (env : Env) (i : ℕ) (m : Manager) → Tidy m → Tidy (finish_run env i m)
unfolding finish_run
finish_run-Tidy env i m t = elim (Option-cases (get_elem? m.live i)) [
  | inl e ↦ rw (e, finish_run) t
  | inr (run, e) ↦ rw (e, finish_run) (finished-Tidy run env i m e t)
]

-- One call or one end of a goroutine. A start goes on only with a free slot or a dead context.
pub data Step : Manager → Manager → Type 0 where
  starts :
      (a : Acquire) (os : Os) (now : Time) (id : String) (m : Manager)
      → CanAcquire a m
      → Step m (start_run a os now id m).1
  starts_next :
      (sort : Sort) (a : Acquire) (os : Os) (now : Time) (m : Manager)
      → CanAcquire a m
      → Step m (start_next_queued sort a os now m).1
  cancels :
      (others : File → File) (os : Os) (now : Time) (id : String) (m : Manager)
      → Step m (cancel_run others os now id m).1
  ends : (env : Env) (i : ℕ) (m : Manager) → Step m (finish_run env i m)
  shuts_down : (m : Manager) → Step m (shutdown m)
  elsewhere : (f : File → File) (m : Manager) → Step m (record m { file = f m.file })

pub data Steps : Manager → Manager → Type 0 where
  here : (m : Manager) → Steps m m
  next : (m m' m'' : Manager) → Step m m' → Steps m' m'' → Steps m m''

Step-Tidy : (m m' : Manager) → Step m m' → Tidy m → Tidy m'
unfolding cancel_run shutdown
Step-Tidy m _ (starts a os now id _ room) t = start_run-Tidy a os now id m room t
Step-Tidy m _ (starts_next sort a os now _ room) t = start_next_queued-Tidy sort a os now m room t
Step-Tidy m _ (cancels others os now id _) t = cancel_read-Tidy others os now id _ m t
Step-Tidy m _ (ends env i _) t = finish_run-Tidy env i m t
Step-Tidy m _ (shuts_down _) t = record {
  counted = t.counted;
  bounded = t.bounded;
  claimed = t.claimed;
  owned = t.owned;
}
Step-Tidy m _ (elsewhere f _) t = record {
  counted = t.counted;
  bounded = t.bounded;
  claimed = t.claimed;
  owned = t.owned;
}

-- Whatever calls and ends of runs follow one another, in any order, and whatever happens to the index:
-- from a tidy manager, such as a new one, the slots in use are the runs that execute, they stay within
-- the capacity, and every registered cancel function is that of an executing run.
pub Steps-Tidy : (m m' : Manager) → Steps m m' → Tidy m → Tidy m'
Steps-Tidy m _ (here _) t = t
Steps-Tidy m m'' (next _ m' _ s rest) t = Steps-Tidy m' m'' rest (Step-Tidy m m' s t)

-- `NewManager`
abbrev pub new_manager : ℕ → File → Manager
new_manager capacity file = record {
  file = file;
  capacity = capacity;
  slots = 0;
  cancels = [];
  live = [];
  called = [];
}

pub new_manager-Tidy : (capacity : ℕ) (file : File) → Tidy (new_manager capacity file)
new_manager-Tidy capacity file = record {
  counted = refl;
  bounded = omega arith;
  claimed = tt;
  owned = λ id h. absurd cc;
}

-- Where no run of a tidy manager executes any more, no slot is in use and no cancel function is left:
-- the wait of `Shutdown` ends.
pub drained : (m : Manager) → Tidy m → m.live ≡ [] → (m.slots ≡ 0) × (m.cancels ≡ [])
drained m t e = (t.counted ∙ ap length e, no_cancels m.cancels (λ id h. not_live id (t.owned id h)))
  where
    not_live : (id : String) → has_run id m.live ≡ true → ⊥
    not_live id = rw e (λ h. cc)

-- A manager that started new, after any sequence of calls and ends of runs: where no run executes any
-- more, no slot is in use and no cancel function is left, so the wait of `Shutdown` ends.
pub Steps-drained :
    (capacity : ℕ) (file : File) (m : Manager)
    → Steps (new_manager capacity file) m
    → m.live ≡ []
    → (m.slots ≡ 0) × (m.cancels ≡ [])
Steps-drained capacity file m s e =
    drained m (Steps-Tidy (new_manager capacity file) m s (new_manager-Tidy capacity file)) e
