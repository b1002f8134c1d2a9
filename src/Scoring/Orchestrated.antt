-- ===== src/Scoring/Orchestrated.antt =====
-- services/orchestrator/internal/executor/score.go: the orchestrator's copy of the formula of the
-- score.
use quant_dominater.Base.{if◌then◌else◌}
use quant_dominater.Base.Int.{ℤ, pos, leb_ℤ, ltb_ℤ, add_ℤ, int64}
use quant_dominater.Base.Float.{Float64, float_lt}
use quant_dominater.Scoring.Formula.{
  Arithmetic, zero_point_one, one_half, one, fifty, hundred, float_le, not_finite, at_least_zero,
}

abbrev pub latency_floor_ms : Float64
latency_floor_ms = 0x3fb999999999999a

abbrev pub latency_cap_ms : Float64
latency_cap_ms = 0x4049000000000000

module _ (ar : Arithmetic) where
  unfoldable pub round2 : Float64 → Float64
  round2 v = ar.div (ar.round (ar.mul v hundred)) hundred

  abbrev pub share_failed : ℤ → ℤ → ℤ → Float64
  share_failed orders_sent timeouts connect_errors =
      ar.div (ar.of_int (int64 (add_ℤ timeouts connect_errors))) (ar.of_int orders_sent)

  unfoldable pub completion_fraction : ℤ → ℤ → ℤ → Float64
  completion_fraction orders_sent timeouts connect_errors =
      if leb_ℤ orders_sent (pos 0)
      then 0
      else (let c = at_least_zero (ar.sub one (share_failed orders_sent timeouts connect_errors)) in
          if float_lt one c then one else c)

  unfoldable pub latency_score : Float64 → Float64
  latency_score p99 =
      if not_finite p99
      then 0
      else if float_le p99 0
      then 0
      else if float_le p99 latency_floor_ms
      then hundred
      else if float_le latency_cap_ms p99
      then 0
      else round2 (
          ar.div (ar.mul hundred (ar.sub (ar.log10 latency_cap_ms) (ar.log10 p99)))
            (ar.sub (ar.log10 latency_cap_ms) (ar.log10 latency_floor_ms)))

  unfoldable pub throughput_score : Float64 → ℤ → Float64
  throughput_score tps expected =
      if not_finite tps
      then 0
      else if leb_ℤ expected (pos 0)
      then hundred
      else (let s = ar.div (ar.mul hundred tps) (ar.of_int expected) in
          round2 (at_least_zero (if float_lt hundred s then hundred else s)))

  unfoldable pub stability_score : ℤ → ℤ → ℤ → Float64
  stability_score orders_sent timeouts connect_errors =
      if leb_ℤ orders_sent (pos 0)
      then (if ltb_ℤ (pos 0) connect_errors then 0 else hundred)
      else round2 (
          at_least_zero
            (ar.mul hundred (ar.sub one (share_failed orders_sent timeouts connect_errors))))

  -- 512, 1.5 and 0.05
  abbrev pub penalties : Float64 → Float64 → Float64
  penalties cpu mem =
      ar.sub (ar.sub hundred (ar.mul (ar.max (ar.sub cpu fifty) 0) 0x3ff8000000000000))
        (ar.mul (ar.max (ar.sub mem 0x4080000000000000) 0) 0x3fa999999999999a)

  unfoldable pub resource_score : Float64 → Float64 → Float64
  resource_score cpu_pct mem_mb =
      if not_finite cpu_pct
      then hundred
      else if float_le cpu_pct 0
      then hundred
      else (let mem = at_least_zero (if not_finite mem_mb then 0 else mem_mb) in
          let s = at_least_zero (penalties (ar.min cpu_pct hundred) mem) in
          round2 (if float_lt hundred s then hundred else s))

  -- The latency credit, behind the completion gate.
  unfoldable pub gated_latency : Float64 → ℤ → ℤ → ℤ → Float64
  gated_latency p99 orders_sent timeouts connect_errors = round2 (
      ar.mul (latency_score p99)
        (ar.min (ar.div (completion_fraction orders_sent timeouts connect_errors) one_half) one))

  -- 0.40, 0.30, 0.20 and 0.10
  unfoldable pub weighted : Float64 → Float64 → Float64 → Float64 → Float64
  weighted latency throughput stability resource = round2 (
      ar.add
        (ar.add (ar.add (ar.mul 0x3fd999999999999a latency) (ar.mul 0x3fd3333333333333 throughput))
          (ar.mul 0x3fc999999999999a stability))
        (ar.mul zero_point_one resource))
