-- ===== src/Control/Store/Guard.antt =====
-- The terminal-state guard of `Save` of services/control-panel/internal/store/json_store.go.
use quant_dominater.Base.{
  ℕ, zero, suc, true, false, not, ◌&&◌, some, ◌≡◌, ◌≢◌, refl, sym, ap, ◌∙◌, ==_iff, arith,
}
use quant_dominater.Control.Model.{
  BenchmarkRun, Status, queued, starting, health_check, benchmarking, validating, scoring, finished,
  failed, cancelled, code, same_status, is_terminal,
}
use quant_dominater.Control.Store.{clashes}

decode : ℕ → Status
decode zero = queued
decode (suc zero) = starting
decode (suc (suc zero)) = health_check
decode (suc (suc (suc zero))) = benchmarking
decode (suc (suc (suc (suc zero)))) = validating
decode (suc (suc (suc (suc (suc zero))))) = scoring
decode (suc (suc (suc (suc (suc (suc zero)))))) = finished
decode (suc (suc (suc (suc (suc (suc (suc zero))))))) = failed
decode _ = cancelled

decode-code : (s : Status) → decode (code s) ≡ s
unfolding decode
decode-code queued = refl
decode-code _ = refl

same_status→eq : (s t : Status) → same_status s t ≡ true → s ≡ t
same_status→eq s t h =
    sym (decode-code s) ∙ ap decode ((==_iff (code s) (code t)).0 h) ∙ decode-code t

-- A run that has ended in one way and is stored as ended in another.
pub record Overturns (stored run : BenchmarkRun) : Type 0 where
  pub ended : is_terminal stored.status ≡ true
  pub ends : is_terminal run.status ≡ true
  pub other : stored.status ≢ run.status

differs : (s t : Status) → same_status s t ≡ false → s ≢ t
differs s t h e = ground (arith, ap code e)

-- The guard finds exactly the saves that would overturn an end.
pub clashes-Overturns :
    (stored run : BenchmarkRun) → clashes (some stored) run ≡ true → Overturns stored run
clashes-Overturns stored run h = record {
  ended = ground arith;
  ends = ground arith;
  other = differs stored.status run.status (ground arith);
}

pub not_clashes-Overturns :
    (stored run : BenchmarkRun) → clashes (some stored) run ≡ false → ¬ Overturns stored run
not_clashes-Overturns stored run h o =
    o.other
      (same_status→eq stored.status run.status (same stored.status run.status o.ended o.ends h))
  where
    same :
        (s t : Status)
        → is_terminal s ≡ true
        → is_terminal t ≡ true
        → (is_terminal s && is_terminal t && not (same_status s t)) ≡ false
        → same_status s t ≡ true
    same s t hs ht g = ground arith
