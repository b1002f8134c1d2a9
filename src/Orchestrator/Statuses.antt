-- ===== src/Orchestrator/Statuses.antt =====
-- Facts about `RunStatus` and `Terminal` of services/orchestrator/internal/model/model.go.
use quant_dominater.Base.{
  ℕ, zero, suc, true, false, not, ◌&&◌, ◌≡◌, refl, sym, ap, ◌∙◌, ==_iff, arith,
}
use quant_dominater.Orchestrator.Model.{
  RunStatus, queued, building, sandbox_starting, health_checking, benchmarking, validating, scoring,
  finished, failed, cancelled, timed_out, status_code, status_eq, is_terminal,
}

decode : ℕ → RunStatus
decode zero = queued
decode (suc zero) = building
decode (suc (suc zero)) = sandbox_starting
decode (suc (suc (suc zero))) = health_checking
decode (suc (suc (suc (suc zero)))) = benchmarking
decode (suc (suc (suc (suc (suc zero))))) = validating
decode (suc (suc (suc (suc (suc (suc zero)))))) = scoring
decode (suc (suc (suc (suc (suc (suc (suc zero))))))) = finished
decode (suc (suc (suc (suc (suc (suc (suc (suc zero)))))))) = failed
decode (suc (suc (suc (suc (suc (suc (suc (suc (suc zero))))))))) = cancelled
decode _ = timed_out

decode-code : (s : RunStatus) → decode (status_code s) ≡ s
unfolding decode
decode-code queued = refl
decode-code _ = refl

-- The test on statuses decides their equality.
pub status_eq→eq : (s t : RunStatus) → status_eq s t ≡ true → s ≡ t
status_eq→eq s t h =
    sym (decode-code s) ∙ ap decode ((==_iff (status_code s) (status_code t)).0 h) ∙ decode-code t

-- Two terminal statuses that the guard of `SaveRun` lets through are the same.
pub guard_keeps_terminal :
    (s t : RunStatus)
    → is_terminal s ≡ true
    → is_terminal t ≡ true
    → (is_terminal s && is_terminal t && not (status_eq s t)) ≡ false
    → s ≡ t
guard_keeps_terminal s t hs ht h = status_eq→eq s t (ground arith)
