-- ===== src/Orchestrator/Limits.antt =====
-- services/orchestrator/internal/orchestrator/manager.go: `normalizeConfig`, the time limit of
-- `BenchmarkEndpoint`, `isBlockedIP` and `validateBenchmarkEndpoint`.
use quant_dominater.Base.{ℕ, ◌-◌, ◌*◌, ◌%◌, ◌^◌, ◌≤◌, ◌≡◌, arith, ltb, if◌then◌else◌, ap}
use quant_dominater.Base.Int.{ℤ, pos, negsuc, pos_part, leb_ℤ, ltb_ℤ, ◌≤ℤ◌, ◌<ℤ◌}
use quant_dominater.Orchestrator.Model.{BenchmarkRunConfig}

-- `if v <= 0 { v = default }; if v > max { v = max }`
abbrev pub clamp : ℕ → ℕ → ℤ → ℤ
clamp default max v =
    let w = if leb_ℤ v (pos 0) then pos default else v in if ltb_ℤ (pos max) w then pos max else w

-- `normalizeConfig`
unfoldable pub normalize_config : BenchmarkRunConfig → BenchmarkRunConfig
normalize_config config = record config {
  bot_count = clamp 10 5000 config.bot_count;
  rate_per_bot = clamp 2 2000 config.rate_per_bot;
  duration_sec = clamp 5 300 config.duration_sec;
  warmup_sec = if ltb_ℤ config.warmup_sec (pos 0) then pos 0 else config.warmup_sec;
}

abbrev pub Between : ℕ → ℕ → ℤ → Type 0
Between a b v = (pos a ≤ℤ v) × (v ≤ℤ pos b)

-- What the load generator is given: at least one of each, and at most the ceilings.
pub record WithinLimits (c : BenchmarkRunConfig) : Type 0 where
  pub bots : Between 1 5000 c.bot_count
  pub rate : Between 1 2000 c.rate_per_bot
  pub duration : Between 1 300 c.duration_sec
  pub warmup : pos 0 ≤ℤ c.warmup_sec

clamp-Between : (d m : ℕ) (v : ℤ) → 1 ≤ d → d ≤ m → Between 1 m (clamp d m v)
clamp-Between d m v p q = ground arith

clamp_within : (d m : ℕ) (v : ℤ) → Between 1 m v → clamp d m v ≡ v
clamp_within d m v h = ground arith

-- `normalizeConfig` brings every configuration within the limits, and changes none that is.
pub normalize_config-WithinLimits :
    (c : BenchmarkRunConfig)
    → WithinLimits (normalize_config c) × (WithinLimits c → normalize_config c ≡ c)
unfolding normalize_config
normalize_config-WithinLimits c = (
  record {
    bots = clamp-Between 10 5000 c.bot_count (omega arith) (omega arith);
    rate = clamp-Between 2 2000 c.rate_per_bot (omega arith) (omega arith);
    duration = clamp-Between 5 300 c.duration_sec (omega arith) (omega arith);
    warmup = ground arith;
  },
  λ w.
      same (clamp_within 10 5000 c.bot_count w.bots) (clamp_within 2 2000 c.rate_per_bot w.rate)
        (clamp_within 5 300 c.duration_sec w.duration) (not_below c.warmup_sec w.warmup),
)
  where
    not_below : (v : ℤ) → pos 0 ≤ℤ v → (if ltb_ℤ v (pos 0) then pos 0 else v) ≡ v
    not_below v h = ground arith

    same :
        {a b d e : ℤ}
        → a ≡ c.bot_count
        → b ≡ c.rate_per_bot
        → d ≡ c.duration_sec
        → e ≡ c.warmup_sec
        → record c { bot_count = a; rate_per_bot = b; duration_sec = d; warmup_sec = e } ≡ c
    same p q r s =
        λ i. record c { bot_count = p i; rate_per_bot = q i; duration_sec = r i; warmup_sec = s i }

-- An int64 number of nanoseconds, from a product that wraps around.
abbrev pub duration_ns : ℕ → ℤ
duration_ns sec =
    let w = (sec * 1000000000) % 2 ^ 64 in if ltb w (2 ^ 63) then pos w else negsuc (2 ^ 64 - w - 1)

-- The time limit of `BenchmarkEndpoint`, from `TimeoutSec` and the manager's own limit.
unfoldable pub direct_timeout : ℤ → ℤ → ℤ
direct_timeout timeout_sec run_timeout =
    if ltb_ℤ (pos 0) timeout_sec
    then duration_ns (pos_part (if ltb_ℤ (pos 300) timeout_sec then pos 300 else timeout_sec))
    else run_timeout

duration_ns_small : (k : ℕ) → k ≤ 300 → duration_ns k ≡ pos (k * 1000000000)
duration_ns_small k h = ground arith

abbrev seconds : ℤ → ℕ
seconds t = pos_part (if ltb_ℤ (pos 300) t then pos 300 else t)

seconds_bounds :
    (t : ℤ)
    → pos 0 <ℤ t
    → (1 ≤ seconds t) × (seconds t ≤ 300) × (t ≤ℤ pos 300 → seconds t ≡ pos_part t)
seconds_bounds t p = (ground arith, ground arith, λ q. ground arith)

direct_timeout_given : (t r : ℤ) → pos 0 <ℤ t → direct_timeout t r ≡ duration_ns (seconds t)
unfolding direct_timeout
direct_timeout_given t r p = taken (duration_ns (seconds t))
  where
    taken : (x : ℤ) → (if ltb_ℤ (pos 0) t then x else r) ≡ x
    taken x = ground arith

direct_timeout_none : (t r : ℤ) → t ≤ℤ pos 0 → direct_timeout t r ≡ r
unfolding direct_timeout
direct_timeout_none t r p = taken (duration_ns (seconds t))
  where
    taken : (x : ℤ) → (if ltb_ℤ (pos 0) t then x else r) ≡ r
    taken x = ground arith

-- Whatever number of seconds a request gives, the time limit is positive and at most 300 seconds, or
-- the manager's own where it gives none: the product of seconds and nanoseconds does not wrap around.
pub direct_timeout_bounds :
    (timeout_sec run_timeout : ℤ)
    → (pos 0 <ℤ timeout_sec
        → (pos 1000000000 ≤ℤ direct_timeout timeout_sec run_timeout)
          × (direct_timeout timeout_sec run_timeout ≤ℤ pos 300000000000)
          × (timeout_sec ≤ℤ pos 300
              → direct_timeout timeout_sec run_timeout ≡ pos (pos_part timeout_sec * 1000000000)))
      × (timeout_sec ≤ℤ pos 0 → direct_timeout timeout_sec run_timeout ≡ run_timeout)
direct_timeout_bounds t r = (
  λ p.
      let (low, high, same) = seconds_bounds t p in
      rw (direct_timeout_given t r p) (
        rw (duration_ns_small (seconds t) high)
          (omega arith, omega arith, λ q. ap (λ (n : ℕ). pos (n * 1000000000)) (same q))),
  direct_timeout_none t r,
)
