-- ===== src/Control/Cancel.antt =====
-- `CancelRun` of services/control-panel/internal/run/manager.go, with the file that it leaves.
use quant_dominater.Base.{
  String, true, Option, none, some, ◌≡◌, inl, inr, refl, ap, subst, ◌∙◌, Bool-cases,
}
use quant_dominater.Orchestrator.Store.{Error, Result, ok, err}
use quant_dominater.Control.Model.{BenchmarkRun, is_terminal}
use quant_dominater.Control.Store.{File, save, get}
use quant_dominater.Control.Store.Records.{Reorders}
use quant_dominater.Control.Store.Saves.{Saves, save-Saves, get-run_id}
use quant_dominater.Control.Manager.{
  Manager, CancelAnswers, cancelled_at, call_cancel, reply_cancel, cancel_read, cancel_run,
}

abbrev StoredTerminal : String → File → Type 0
StoredTerminal id file = (r : BenchmarkRun) × (get id file ≡ ok r) × (is_terminal r.status ≡ true)

-- A successful cancel answers a terminal run and leaves the stored one terminal.
abbrev pub Cancels : String → Result BenchmarkRun × Manager → Type 0
Cancels id (err e, m') = Unit
Cancels id (ok run, m') =
    (run.run_id ≡ id) × (is_terminal run.status ≡ true) × StoredTerminal id m'.file

reply_cancel-Cancels :
    (run : BenchmarkRun) (old : File) (saved : File × Option Error) (m : Manager)
    → is_terminal run.status ≡ true
    → Saves run old saved
    → Cancels run.run_id (reply_cancel run saved m)
reply_cancel-Cancels run old (file, some e) m t s = tt
reply_cancel-Cancels run old (file, none) m t (inl (g, _), others) = (refl, t, (run, g, t))
reply_cancel-Cancels run old (file, none) m t (inr (stored, g, c, same), others) =
    (refl, t, (stored, ap (get run.run_id) same ∙ g, c.ended))

-- Whatever other goroutines do to the file between its two accesses: where CancelRun answers without
-- an error, the run that it answers has the id that was asked for and is terminal, and so is the run
-- that the file then holds under that id.
pub cancel_run-Cancels :
    (c : CancelAnswers) (id : String) (m : Manager)
    → Reorders c.order
    → Cancels id (cancel_run c id m)
unfolding cancel_run
cancel_run-Cancels c id m perm = from (get id m.file) refl
  where
    stop : (run : BenchmarkRun) → get id m.file ≡ ok run → Cancels id (cancel_read c id (ok run) m)
    stop run h =
        let (same, named) = get-run_id id m.file run h in
        elim (Bool-cases (is_terminal run.status)) [
          | inl e ↦ rw (e, cancel_read) (same, e, (run, h, e))
          | inr e ↦
              rw (e, cancel_read)
                (subst
                  (λ i. Cancels i (
                    reply_cancel (cancelled_at c.now run)
                      (save c.os c.order (cancelled_at c.now run) (c.others m.file))
                      (call_cancel id m)))
                  same
                  (reply_cancel-Cancels (cancelled_at c.now run) (c.others m.file) _
                    (call_cancel id m) refl
                    (save-Saves c.os c.order (cancelled_at c.now run) (c.others m.file) perm
                      named)))
        ]

    from : (r : Result BenchmarkRun) → get id m.file ≡ r → Cancels id (cancel_read c id r m)
    from (err e) h = tt
    from (ok run) h = stop run h
