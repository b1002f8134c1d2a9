-- ===== src/Orchestrator/Execute/Ending.antt =====
-- How every call of `execute` of services/orchestrator/internal/orchestrator/manager.go ends.
use quant_dominater.Base.Exits.{
  Exit, done, stop, panicked, modify, Ends, Post, Post-bind, Post-modify,
}
use quant_dominater.Base.{
  ℕ, ◌-◌, String, List, [], ◌∷◌, ◌++◌, ◌≡◌, ◌≢◌, refl, sym, ap, ap₂, subst, subst₂, ◌∙◌, inl, inr,
  Bool-cases, true, false, All, All-append,
}
use quant_dominater.Orchestrator.Model.{RunStatus, building, scoring, finished, is_terminal}
use quant_dominater.Orchestrator.Store.{Error, message}
use quant_dominater.Orchestrator.Execute.World.{
  Outcome, returns, fails, panics, Ctx, live, cancel_called, deadline_passed, Env, EngineState,
  not_started, running, stopped, unstopped, stored, published, released, World, emit,
}
use quant_dominater.Base.Keys.{remove_cancel}
use quant_dominater.Orchestrator.Execute.Run.{
  body, finish, publish, publish_as, ended, failed_as, fail, store_run, stop_state, stop_panics,
  stop_engine, deferred_stop, clean_up, unwind, execute,
}
use quant_dominater.Orchestrator.Execute.Life.{
  asked, StopFails, EventOk, Reached, Allowed, IsFailure, fails_failed, fails_cancelled,
  fails_timed_out, Life, whole, cut, cut_again, At, Left, store_run-At, with_run-At,
}
use quant_dominater.Orchestrator.Execute.Stages.{
  path_scoring, path_whole, at_whole, AtP, LeftP, asked-StopFails, Scored, prepare-Post,
  launch-Post, benchmark-Post, judge-Post,
}

module _ (w0 : World) (env : Env) where
  abbrev Complete : World → Type 0
  Complete w = AtP w0 env (asked env) finished path_whole w × Scored w0 env w

  finish-Post :
      Post {π = Unit {0}} {ε = Error}
        (LeftP w0 env)
        (λ w.
          (AtP w0 env (asked env) scoring path_scoring w × Scored w0 env w)
          × (env.ctx_recheck ≡ live))
        (λ _. Complete)
        (modify (finish env))
  unfolding store_run
  finish-Post = Post-modify _ (λ w h. (
    store_run-At w0 env (asked env) finished path_whole _ (
        with_run-At w0 env (asked env) scoring finished path_scoring
          (ended (env.now finished) finished w.run) w h.0.0 refl refl h.1),
    h.0.1,
  ))

  published_event : (w : World) → Complete w → Complete (emit (published w.run.status) w)
  published_event w h = (
    record {
      engine = h.0.engine;
      status = h.0.status;
      trail = h.0.trail;
      same_id = h.0.same_id;
      same_slots = h.0.same_slots;
      same_cancels = h.0.same_cancels;
      events_ok =
          All-append (EventOk env) w.events (published w.run.status ∷ []) h.0.events_ok
            (h.0.status, tt);
      allowed = h.0.allowed;
      origin = h.0.origin;
    },
    h.1,
  )

  publish_as-Ends :
      (o : Outcome (Unit {0})) (w : World)
      → Complete w
      → Ends (λ _. Complete) (LeftP w0 env) (publish_as o w).0 (publish_as o w).1
  publish_as-Ends (returns _) w h = published_event w h
  publish_as-Ends (fails _) w h = published_event w h
  publish_as-Ends panics w h = (asked env, finished, path_whole, at_whole, h.0)

  publish-Post : Post (LeftP w0 env) Complete (λ _. Complete) (publish env)
  unfolding publish
  publish-Post = record { at = λ w h. publish_as-Ends (env.publish w.run) w h }

  body-Post : Post (LeftP w0 env) (AtP w0 env not_started building []) (λ _. Complete) (body env)
  unfolding body
  body-Post = Post-bind _ _ (prepare-Post w0 env) λ submission.
      Post-bind _ _ (launch-Post w0 env submission) λ endpoint.
        Post-bind _ _ (benchmark-Post w0 env endpoint) λ metrics.
          Post-bind _ _ (judge-Post w0 env metrics) λ _. Post-bind _ _ finish-Post λ _. publish-Post

-- What holds when an execution that was started at `w` is over.
pub record Executed (env : Env) (w w' : World) : Type 0 where
  pub life : Life env w'.run.status w'.trail
  pub engine_off : w'.engine ≢ running
  pub unstopped_why : w'.engine ≡ unstopped → StopFails env.stop
  pub slot_freed : w'.slots ≡ w.slots - 1
  pub cancel_dropped : w'.cancels ≡ remove_cancel w.run.run_id w.cancels
  pub events_ok : All (EventOk env) w'.events
  pub scored : w'.run.status ≡ finished → Scored w env w'

not_running : (o : Outcome (Unit {0})) (e : EngineState) → stop_state o e ≢ running
not_running o not_started h = cc h
not_running (returns u) running h = cc h
not_running (fails e) running h = cc h
not_running panics running h = cc h
not_running o stopped h = cc h
not_running o unstopped h = cc h

why_unstopped :
    (o : Outcome (Unit {0})) (e : EngineState)
    → (e ≡ unstopped → StopFails o)
    → stop_state o e ≡ unstopped
    → StopFails o
why_unstopped o not_started h x = cc x
why_unstopped o running h x = asked-StopFails o x
why_unstopped o stopped h x = cc x
why_unstopped o unstopped h x = h refl

panics_if : (o : Outcome (Unit {0})) (e : EngineState) → stop_panics o e ≡ true → o ≡ panics
panics_if o not_started h = absurd cc
panics_if (returns u) running h = absurd cc
panics_if (fails r) running h = absurd cc
panics_if panics running h = refl
panics_if o stopped h = absurd cc
panics_if o unstopped h = absurd cc

asked_once : (o : Outcome (Unit {0})) → stop_panics o (stop_state o running) ≡ false
asked_once (returns u) = refl
asked_once (fails e) = refl
asked_once panics = refl

failure_lem : (c : Ctx) (t : String) → IsFailure (failed_as c t).0
failure_lem live t = fails_failed
failure_lem cancel_called t = fails_cancelled
failure_lem deadline_passed t = fails_timed_out

not_finished : {s : RunStatus} {P : Type 0} → IsFailure s → s ≡ finished → P
not_finished fails_failed h = cc
not_finished fails_cancelled h = cc
not_finished fails_timed_out h = cc

module _ (w0 : World) (env : Env) where
  after_done : (w : World) → Complete w0 env w → Executed env w0 (unwind env (done tt) w)
  after_done w h = rw (ap (stop_panics env.stop) h.0.engine ∙ asked_once env.stop) (record {
    life = subst₂ (Life env) (sym h.0.status) (sym h.0.trail) (whole at_whole h.0.allowed);
    engine_off = not_running env.stop w.engine;
    unstopped_why = why_unstopped env.stop w.engine h.0.origin;
    slot_freed = ap (λ (n : ℕ). n - 1) h.0.same_slots;
    cancel_dropped = ap₂ remove_cancel h.0.same_id h.0.same_cancels;
    events_ok = All-append (EventOk env) w.events (released ∷ []) h.0.events_ok (tt, tt);
    scored = λ _. h.1;
  })

  -- After `fail`.
  record Fallen (s t : RunStatus) (path : List RunStatus) (v : World) : Type 0 where
    reached : Reached s path
    allowed : All (Allowed env) path
    failure : IsFailure t
    status : v.run.status ≡ t
    trail : v.trail ≡ t ∷ path
    same_id : v.run.run_id ≡ w0.run.run_id
    same_slots : v.slots ≡ w0.slots
    same_cancels : v.cancels ≡ w0.cancels
    events_ok : All (EventOk env) v.events
    origin : v.engine ≡ unstopped → StopFails env.stop

  fail-Fallen :
      (stage : String) (e : Error) (eng : EngineState) (s : RunStatus) (path : List RunStatus)
      (w : World)
      → Reached s path
      → At w0 env eng s path w
      → Fallen s (failed_as env.ctx_at_fail (env.text_of e)).0 path (fail env stage e w)
  unfolding fail store_run
  fail-Fallen stage e eng s path w r at = record {
    reached = r;
    allowed = at.allowed;
    failure = failure_lem env.ctx_at_fail (env.text_of e);
    status = refl;
    trail = ap₂ ◌∷◌ refl at.trail;
    same_id = at.same_id;
    same_slots = at.same_slots;
    same_cancels = at.same_cancels;
    events_ok = All-append (EventOk env) w.events (stored _ ∷ []) at.events_ok (tt, tt);
    origin = at.origin;
  }

  settled :
      (s t : RunStatus) (path : List RunStatus) (v : World)
      → Fallen s t path v
      → v.engine ≢ running
      → Executed env w0 (clean_up v)
  settled s t path v f off = record {
    life = subst₂ (Life env) (sym f.status) (sym f.trail) (cut f.reached f.allowed f.failure);
    engine_off = off;
    unstopped_why = f.origin;
    slot_freed = ap (λ (n : ℕ). n - 1) f.same_slots;
    cancel_dropped = ap₂ remove_cancel f.same_id f.same_cancels;
    events_ok = All-append (EventOk env) v.events (released ∷ []) f.events_ok (tt, tt);
    scored = λ x. not_finished f.failure (sym f.status ∙ x);
  }

  stop_engine-Fallen :
      (s t : RunStatus) (path : List RunStatus) (v : World)
      → Fallen s t path v
      → Fallen s t path (stop_engine env v)
  stop_engine-Fallen s t path v f = record {
    reached = f.reached;
    allowed = f.allowed;
    failure = f.failure;
    status = f.status;
    trail = f.trail;
    same_id = f.same_id;
    same_slots = f.same_slots;
    same_cancels = f.same_cancels;
    events_ok = f.events_ok;
    origin = why_unstopped env.stop v.engine f.origin;
  }

  -- `handle.Stop` panics behind `fail`, and the recovery fails the run once more.
  failed_again :
      (stage : String) (e : Error) (s t : RunStatus) (path : List RunStatus) (v : World)
      → Fallen s t path v
      → env.stop ≡ panics
      → Executed env w0 (clean_up (fail env stage e (stop_engine env v)))
  unfolding fail store_run
  failed_again stage e s t path v f p =
      let failure = failure_lem env.ctx_at_fail (env.text_of e) in
      record {
        life =
            subst (λ l. let u = (failed_as env.ctx_at_fail (env.text_of e)).0 in Life env u (u ∷ l))
              (sym f.trail) (cut_again f.reached f.allowed f.failure failure p);
        engine_off = not_running env.stop v.engine;
        unstopped_why = why_unstopped env.stop v.engine f.origin;
        slot_freed = ap (λ (n : ℕ). n - 1) f.same_slots;
        cancel_dropped = ap₂ remove_cancel f.same_id f.same_cancels;
        events_ok =
            All-append (EventOk env) (v.events ++ stored _ ∷ []) (released ∷ [])
              (All-append (EventOk env) v.events (stored _ ∷ []) f.events_ok (tt, tt)) (tt, tt);
        scored = not_finished failure;
      }

  after_fall :
      (s t : RunStatus) (path : List RunStatus) (v : World)
      → Fallen s t path v
      → Executed env w0 (clean_up (deferred_stop env v))
  after_fall s t path v f = elim (Bool-cases (stop_panics env.stop v.engine)) [
    | inl p ↦
        rw (p, deferred_stop)
          (failed_again "PANIC" (message "panic on execute path") s t path v f
            (panics_if env.stop v.engine p))
    | inr p ↦
        rw (p, deferred_stop)
          (settled s t path (stop_engine env v) (stop_engine-Fallen s t path v f)
            (not_running env.stop v.engine))
  ]

  after_stop :
      (stage : String) (e : Error) (w : World)
      → Left w0 env w
      → Executed env w0 (unwind env (stop stage e) w)
  after_stop stage e w (eng, s, path, r, at) =
      after_fall s _ path (fail env stage e w) (fail-Fallen stage e eng s path w r at)

  stop_engine-At :
      (eng : EngineState) (s : RunStatus) (path : List RunStatus) (w : World)
      → At w0 env eng s path w
      → At w0 env (stop_state env.stop eng) s path (stop_engine env w)
  stop_engine-At eng s path w at = record {
    engine = ap (stop_state env.stop) at.engine;
    status = at.status;
    trail = at.trail;
    same_id = at.same_id;
    same_slots = at.same_slots;
    same_cancels = at.same_cancels;
    events_ok = at.events_ok;
    allowed = at.allowed;
    origin = why_unstopped env.stop w.engine at.origin;
  }

  after_panic : (w : World) → Left w0 env w → Executed env w0 (unwind env (panicked tt) w)
  unfolding fail store_run
  after_panic w (eng, s, path, r, at) =
      settled s _ path _
        (fail-Fallen "PANIC" (message "panic on execute path") (stop_state env.stop eng) s path
          (stop_engine env w) r (stop_engine-At eng s path w at))
        (not_running env.stop w.engine)

  unwind-Executed :
      (exit : Exit (Unit {0}) Error (Unit {0})) (w : World)
      → Ends (λ _. Complete w0 env) (Left w0 env) exit w
      → Executed env w0 (unwind env exit w)
  unwind-Executed (done a) w h = after_done w h
  unwind-Executed (stop stage e) w h = after_stop stage e w h
  unwind-Executed (panicked tt) w h = after_panic w h

-- A run as it is handed to `execute`: claimed, and nothing done.
pub record IsClaimed (w : World) : Type 0 where
  pub status : w.run.status ≡ building
  pub engine : w.engine ≡ not_started
  pub trail : w.trail ≡ []
  pub events : w.events ≡ []

pub execute-Executed : (env : Env) (w : World) → IsClaimed w → Executed env w (execute env w)
unfolding execute
execute-Executed env w fresh = unwind-Executed w env (body env w).0 (body env w).1 (
    (body-Post w env).at w (record {
      engine = fresh.engine;
      status = fresh.status;
      trail = fresh.trail;
      same_id = refl;
      same_slots = refl;
      same_cancels = refl;
      events_ok = subst (All (EventOk env)) (sym fresh.events) tt;
      allowed = tt;
      origin = λ x. cc (sym fresh.engine ∙ x);
    }))

Life-terminal :
    {env : Env} {s : RunStatus} {path : List RunStatus} → Life env s path → is_terminal s ≡ true
Life-terminal (whole r al) = refl
Life-terminal (cut_again r al f fails_failed p) = refl
Life-terminal (cut_again r al f fails_cancelled p) = refl
Life-terminal (cut_again r al f fails_timed_out p) = refl
Life-terminal (cut r al fails_failed) = refl
Life-terminal (cut r al fails_cancelled) = refl
Life-terminal (cut r al fails_timed_out) = refl
