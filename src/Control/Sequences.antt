-- ===== src/Control/Sequences.antt =====
-- services/control-panel/internal/run/manager.go: the manager over any sequence of calls.
use quant_dominater.Base.{
  ℕ, zero, suc, ◌<◌, String, true, Option, none, some, List, [], ◌∷◌, ◌≡◌, inl, inr, refl, ap,
  subst, ◌∙◌, length, arith, Option-cases, get_elem?, drop_at, length-drop_at, lt→ltb,
}
use quant_dominater.Base.Keys.{
  has_key, has_key-drop_at, has_cancel, has_cancel-remove_cancel, no_cancels,
}
use quant_dominater.Orchestrator.Store.{Error, ok}
use quant_dominater.Control.Model.{RunRequest, BenchmarkRun}
use quant_dominater.Control.Requests.{normalize_request}
use quant_dominater.Control.Store.{File, save, get}
use quant_dominater.Control.Execute.{Env, execute}
use quant_dominater.Control.Execute.Ending.{execute_ends}
use quant_dominater.Control.Slots.{
  run_key, Tidy, SameRuns-Tidy, create_run-Creates, created-Tidy, cancel_read-SameRuns,
}
use quant_dominater.Control.Manager.{
  Manager, Answers, new_run, take_slot, launch_saved, create_in_slot, create_normalized, create_run,
  CancelAnswers, cancel_run, shutdown, world_of, after_run, finish_run, new_manager,
}

after_run-Tidy :
    (env : Env) (i : ℕ) (run : BenchmarkRun) (m : Manager)
    → get_elem? m.live i ≡ some run
    → Tidy m
    → Tidy (after_run i (execute env (world_of run m)) m)
after_run-Tidy env i run m h t =
    let x =
      execute_ends env (world_of run m) (record { engine = refl; cleanup = refl; trail = refl }) in
    record {
      counted = omega (arith, x.slot_freed, length-drop_at run i m.live h, t.counted);
      bounded = omega (arith, x.slot_freed, t.bounded);
      owned = λ id k.
          let (ne, old) =
            has_cancel-remove_cancel id run.run_id m.cancels
              (subst (λ ks. has_cancel id ks ≡ true) x.cancel_dropped k) in
          has_key-drop_at run_key run id i m.live h ne (t.owned id old);
    }

pub finish_run-Tidy : (env : Env) (i : ℕ) (m : Manager) → Tidy m → Tidy (finish_run env i m)
unfolding finish_run
finish_run-Tidy env i m t = elim (Option-cases (get_elem? m.live i)) [
  | inl e ↦ rw (e, finish_run) t
  | inr (run, e) ↦ rw (e, finish_run) (after_run-Tidy env i run m e t)
]

-- One call of the handlers, or one end of a goroutine.
pub data Step : Manager → Manager → Type 0 where
  creates : (a : Answers) (req : RunRequest) (m : Manager) → Step m (create_run a req m).1
  cancels : (c : CancelAnswers) (id : String) (m : Manager) → Step m (cancel_run c id m).1
  ends : (env : Env) (i : ℕ) (m : Manager) → Step m (finish_run env i m)
  shuts_down : (m : Manager) → Step m (shutdown m)

pub data Steps : Manager → Manager → Type 0 where
  here : (m : Manager) → Steps m m
  next : (m m' m'' : Manager) → Step m m' → Steps m' m'' → Steps m m''

Step-Tidy : (m m' : Manager) → Step m m' → Tidy m → Tidy m'
unfolding cancel_run shutdown
Step-Tidy m _ (creates a req _) t =
    created-Tidy a m (create_run a req m) (create_run-Creates a req m) t
Step-Tidy m _ (cancels c id _) t = SameRuns-Tidy m _ (cancel_read-SameRuns c id (get id m.file) m) t
Step-Tidy m _ (ends env i _) t = finish_run-Tidy env i m t
Step-Tidy m _ (shuts_down _) t =
    SameRuns-Tidy m _ (record { slots = refl; live = refl; cancels = refl }) t

pub Steps-Tidy : (m m' : Manager) → Steps m m' → Tidy m → Tidy m'
Steps-Tidy m _ (here _) t = t
Steps-Tidy m m'' (next _ m' _ s rest) t = Steps-Tidy m' m'' rest (Step-Tidy m m' s t)

new_manager-Tidy : (file : File) → Tidy (new_manager file)
new_manager-Tidy file = record { counted = refl; bounded = omega arith; owned = λ id h. absurd cc }

-- In any sequence of calls and ends of runs from a new manager, the slots in use are the runs that
-- execute, at most eight, and every registered cancel function is that of an executing run.
pub Steps-bounded : (file : File) (m : Manager) → Steps (new_manager file) m → Tidy m
Steps-bounded file m s = Steps-Tidy (new_manager file) m s (new_manager-Tidy file)

-- Every run that executes comes to its end, the first one first.
abbrev pub drain : (ℕ → Env) → ℕ → Manager → Manager
drain env zero m = m
drain env (suc n) m = drain env n (finish_run (env n) 0 m)

finish_run-live :
    (env : Env) (i : ℕ) (run : BenchmarkRun) (m : Manager)
    → get_elem? m.live i ≡ some run
    → (finish_run env i m).live ≡ drop_at i m.live
unfolding finish_run
finish_run-live env i run m h = rw (h, finish_run)

finish_first :
    (env : Env) (run : BenchmarkRun) (rest : List BenchmarkRun) (m : Manager)
    → m.live ≡ run ∷ rest
    → (finish_run env 0 m).live ≡ rest
finish_first env run rest m e =
    finish_run-live env 0 run m (ap (λ rs. get_elem? rs 0) e) ∙ ap (drop_at 0) e

drain-Tidy :
    (env : ℕ → Env) (n : ℕ) (m : Manager)
    → length m.live ≡ n
    → Tidy m
    → Tidy (drain env n m) × ((drain env n m).live ≡ [])
drain-Tidy env zero m e t = (t, length-zero m.live e)
  where
    length-zero : (rs : List BenchmarkRun) → length rs ≡ 0 → rs ≡ []
    length-zero [] h = refl
    length-zero (r ∷ rs) h = absurd (omega (arith, h))
drain-Tidy env (suc n) m e t =
    drain-Tidy env n (finish_run (env n) 0 m) (shorter m.live refl e)
      (finish_run-Tidy (env n) 0 m t)
  where
    shorter :
        (rs : List BenchmarkRun)
        → m.live ≡ rs
        → length m.live ≡ suc n
        → length (finish_run (env n) 0 m).live ≡ n
    shorter [] h k = absurd (omega (arith, k, ap length h))
    shorter (r ∷ rs) h k = ap length (finish_first (env n) r rs m h) ∙ omega (arith, k, ap length h)

-- In any state that a new manager can reach: when every run that executes has come to its end,
-- whatever its components answered, no slot is in use and no cancel function is registered, so that
-- the wait of Shutdown ends.
pub Steps-drains :
    (file : File) (m : Manager)
    → Steps (new_manager file) m
    → (env : ℕ → Env)
    → let m' = drain env (length m.live) m in (m'.live ≡ []) × (m'.slots ≡ 0) × (m'.cancels ≡ [])
Steps-drains file m s env =
    let (t, none_live) = drain-Tidy env (length m.live) m refl (Steps-bounded file m s) in
    (
      none_live,
      t.counted ∙ ap length none_live,
      no_cancels _ (λ id h. not_live none_live id (t.owned id h)),
    )
  where
    not_live : {rs : List BenchmarkRun} → rs ≡ [] → (id : String) → has_key run_key id rs ≡ true → ⊥
    not_live e id = rw e (λ h. cc h)

-- What a request needs besides a slot: its numbers are in order and nothing that it calls fails.
pub record Creatable (a : Answers) (req accepted : RunRequest) (m : Manager) : Type 0 where
  pub normal : normalize_request req ≡ ok accepted
  pub mkdir : a.mkdir ≡ none
  pub placeholders : a.placeholders ≡ none
  pub run_spec : a.run_spec ≡ none
  pub config : a.config ≡ none
  pub stored : (save a.os a.order (new_run a accepted) m.file).1 ≡ none

create_run-ok :
    (a : Answers) (req accepted : RunRequest) (m : Manager)
    → m.slots < 8
    → Creatable a req accepted m
    → (create_run a req m).0 ≡ ok (new_run a accepted)
unfolding create_run
create_run-ok a req accepted m room c =
    rw (c.normal, create_normalized)
      (rw (lt→ltb m.slots 8 room, create_normalized)
        (rw (c.mkdir, create_in_slot)
          (rw (c.placeholders, create_in_slot)
            (launched (save a.os a.order (new_run a accepted) m.file) c.stored))))
  where
    launched :
        (saved : File × Option Error)
        → saved.1 ≡ none
        → (launch_saved a (new_run a accepted) saved (take_slot m)).0 ≡ ok (new_run a accepted)
    launched (file, e) h =
        rw (h, launch_saved) (rw (c.run_spec, launch_saved) (rw (c.config, launch_saved) refl))

-- In any state that a new manager can reach: when one of the runs that execute comes to its end, a
-- request that is in order and meets no failing call is accepted, however many there were before.
pub Steps-admits :
    (file : File) (m : Manager)
    → Steps (new_manager file) m
    → (run : BenchmarkRun) (i : ℕ) → get_elem? m.live i ≡ some run
    → (env : Env) (a : Answers) (req accepted : RunRequest)
    → Creatable a req accepted (finish_run env i m)
    → (create_run a req (finish_run env i m)).0 ≡ ok (new_run a accepted)
Steps-admits file m s run i h env a req accepted c =
    create_run-ok a req accepted (finish_run env i m) room c
  where
    fewer : (finish_run env i m).live ≡ drop_at i m.live
    fewer = finish_run-live env i run m h

    room : (finish_run env i m).slots < 8
    room =
        let t = Steps-bounded file m s in
        let t' = finish_run-Tidy env i m t in
        omega
          (arith, t.counted, t.bounded, t'.counted, ap length fewer, length-drop_at run i m.live h)
