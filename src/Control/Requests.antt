-- ===== src/Control/Requests.antt =====
-- services/control-panel/internal/run/state.go: `NormalizeRequest`.
use quant_dominater.Base.{
  ℕ, ◌≤◌, String, Bool, true, false, not, ◌⊎◌, inl, inr, ◌≡◌, ◌≢◌, refl, sym, ap, ◌∙◌, Bool-cases,
  str_eq-cases, arith, str_eq, if◌then◌else◌,
}
use quant_dominater.Base.Int.{ℤ, pos, eqb_ℤ, ltb_ℤ, ◌≤ℤ◌, ◌<ℤ◌}
use quant_dominater.Orchestrator.Limits.{Between}
use quant_dominater.Orchestrator.Store.{message, Result, ok, err}
use quant_dominater.Control.Model.{RunRequest}

-- `if req.X == "" { req.X = fallback }`
abbrev pub text_or : String → String → String
text_or fallback s = if str_eq s "" then fallback else s

-- `if req.X == 0 { req.X = fallback }`
abbrev pub number_or : ℕ → ℤ → ℤ
number_or fallback v = if eqb_ℤ v (pos 0) then pos fallback else v

-- `if req.X > max { req.X = max }`
abbrev pub at_most : ℕ → ℤ → ℤ
at_most max v = if ltb_ℤ (pos max) v then pos max else v

abbrev pub with_defaults : RunRequest → RunRequest
with_defaults req = record {
  team_id = text_or "local" req.team_id;
  engine_mode = text_or "normal" req.engine_mode;
  bot_count = number_or 10 req.bot_count;
  orders_per_sec = number_or 2 req.orders_per_sec;
  duration_sec = number_or 5 req.duration_sec;
  seed = number_or 42 req.seed;
}

abbrev pub is_known_mode : String → Bool
is_known_mode s = if str_eq s "normal" then true else str_eq s "broken-price-time-priority"

-- `NormalizeRequest` behind the defaults
abbrev pub limited : RunRequest → Result RunRequest
limited req =
    if not (is_known_mode req.engine_mode)
    then err (message "engine_mode must be normal or broken-price-time-priority")
    else if ltb_ℤ req.bot_count (pos 1)
    then err (message "bot_count must be greater than zero")
    else if ltb_ℤ req.orders_per_sec (pos 1)
    then err (message "orders_per_sec must be greater than zero")
    else if ltb_ℤ req.duration_sec (pos 1)
    then err (message "duration_sec must be greater than zero")
    else ok (record req {
      bot_count = at_most 5000 req.bot_count;
      orders_per_sec = at_most 2000 req.orders_per_sec;
      duration_sec = at_most 300 req.duration_sec;
    })

-- `NormalizeRequest`
unfoldable pub normalize_request : RunRequest → Result RunRequest
normalize_request req = limited (with_defaults req)

-- What a run of the reference engine is given.
pub record WithinLimits (req : RunRequest) : Type 0 where
  pub team : str_eq req.team_id "" ≡ false
  pub mode : is_known_mode req.engine_mode ≡ true
  pub bots : Between 1 5000 req.bot_count
  pub orders : Between 1 2000 req.orders_per_sec
  pub duration : Between 1 300 req.duration_sec
  pub seeded : eqb_ℤ req.seed (pos 0) ≡ false

-- A request is refused for an unknown mode or for a negative number, and only for these. An accepted
-- one is within the limits, and is the request itself where that is within them.
abbrev pub Normalized : RunRequest → Result RunRequest → Type 0
Normalized req (err e) =
    (is_known_mode (text_or "normal" req.engine_mode) ≡ false)
    ⊎ (req.bot_count <ℤ pos 0)
    ⊎ (req.orders_per_sec <ℤ pos 0)
    ⊎ (req.duration_sec <ℤ pos 0)
Normalized req (ok out) =
    WithinLimits out
    × (WithinLimits req → out ≡ req)
    × (pos 0 ≤ℤ req.bot_count)
    × (pos 0 ≤ℤ req.orders_per_sec)
    × (pos 0 ≤ℤ req.duration_sec)

module _ (default max : ℕ) (v : ℤ) (given : 1 ≤ default) where
  too_low : ltb_ℤ (number_or default v) (pos 1) ≡ true → v <ℤ pos 0
  too_low h = ground arith

  high_enough : ltb_ℤ (number_or default v) (pos 1) ≡ false → pos 0 ≤ℤ v
  high_enough h = ground arith

  cut :
      1 ≤ max
      → ltb_ℤ (number_or default v) (pos 1) ≡ false
      → Between 1 max (at_most max (number_or default v))
  cut m h = ground arith

  kept : Between 1 max v → at_most max (number_or default v) ≡ v
  kept h = ground arith

text_or_kept : (fallback s : String) → str_eq s "" ≡ false → text_or fallback s ≡ s
text_or_kept fallback s h = rw h

text_or-nonempty :
    (fallback s : String) → str_eq fallback "" ≡ false → str_eq (text_or fallback s) "" ≡ false
text_or-nonempty fallback s h = elim (Bool-cases (str_eq s "")) [ inl e ↦ rw e h | inr e ↦ rw e e ]

number_or-nonzero : (v : ℤ) → eqb_ℤ (number_or 42 v) (pos 0) ≡ false
number_or-nonzero v = ground arith

number_or_kept : (v : ℤ) → eqb_ℤ v (pos 0) ≡ false → number_or 42 v ≡ v
number_or_kept v h = rw h

known_nonempty : (s : String) → is_known_mode s ≡ true → str_eq s "" ≡ false
known_nonempty s h = elim (str_eq-cases s "") [
  | inl (e, p) ↦ absurd (true≢false (sym h ∙ ap is_known_mode p))
  | inr e ↦ e
]
  where
    true≢false : true ≢ false
    true≢false h = cc

module _ (req : RunRequest) (mode : not (is_known_mode (with_defaults req).engine_mode) ≡ false)
    (bots : ltb_ℤ (number_or 10 req.bot_count) (pos 1) ≡ false)
    (orders : ltb_ℤ (number_or 2 req.orders_per_sec) (pos 1) ≡ false)
    (duration : ltb_ℤ (number_or 5 req.duration_sec) (pos 1) ≡ false) where
  abbrev accepted : RunRequest
  accepted = record (with_defaults req) {
    bot_count = at_most 5000 (number_or 10 req.bot_count);
    orders_per_sec = at_most 2000 (number_or 2 req.orders_per_sec);
    duration_sec = at_most 300 (number_or 5 req.duration_sec);
  }

  accepted_same : WithinLimits req → accepted ≡ req
  accepted_same w = λ i. record {
    team_id = text_or_kept "local" req.team_id w.team i;
    engine_mode = text_or_kept "normal" req.engine_mode (known_nonempty req.engine_mode w.mode) i;
    bot_count = kept 10 5000 req.bot_count (omega arith) w.bots i;
    orders_per_sec = kept 2 2000 req.orders_per_sec (omega arith) w.orders i;
    duration_sec = kept 5 300 req.duration_sec (omega arith) w.duration i;
    seed = number_or_kept req.seed w.seeded i;
  }

  accepted-Normalized : Normalized req (ok accepted)
  accepted-Normalized = (
    record {
      team = text_or-nonempty "local" req.team_id refl;
      mode = not_false mode;
      bots = cut 10 5000 req.bot_count (omega arith) (omega arith) bots;
      orders = cut 2 2000 req.orders_per_sec (omega arith) (omega arith) orders;
      duration = cut 5 300 req.duration_sec (omega arith) (omega arith) duration;
      seeded = number_or-nonzero req.seed;
    },
    accepted_same,
    high_enough 10 0 req.bot_count (omega arith) bots,
    high_enough 2 0 req.orders_per_sec (omega arith) orders,
    high_enough 5 0 req.duration_sec (omega arith) duration,
  )
    where
      not_false : {b : Bool} → not b ≡ false → b ≡ true
      not_false {b = true} h = refl
      not_false {b = false} h = sym h

-- NormalizeRequest refuses a request exactly for an unknown mode or a negative number of bots, orders
-- or seconds; an accepted request has a known mode, a team, a seed and numbers within their
-- ceilings, and is the request itself where that has all of these.
pub normalize_request-Normalized : (req : RunRequest) → Normalized req (normalize_request req)
unfolding normalize_request
normalize_request-Normalized req =
    elim (Bool-cases (not (is_known_mode (with_defaults req).engine_mode))) [
      | inl m ↦ rw m (inl (not_true m))
      | inr m ↦ elim (Bool-cases (ltb_ℤ (number_or 10 req.bot_count) (pos 1))) [
        | inl b ↦ rw (m, b) (inr (inl (too_low 10 0 req.bot_count (omega arith) b)))
        | inr b ↦ elim (Bool-cases (ltb_ℤ (number_or 2 req.orders_per_sec) (pos 1))) [
          | inl o ↦ rw (m, b, o) (inr (inr (inl (too_low 2 0 req.orders_per_sec (omega arith) o))))
          | inr o ↦ elim (Bool-cases (ltb_ℤ (number_or 5 req.duration_sec) (pos 1))) [
            | inl d ↦
                rw (m, b, o, d) (inr (inr (inr (too_low 5 0 req.duration_sec (omega arith) d))))
            | inr d ↦ rw (m, b, o, d) (accepted-Normalized req m b o d)
          ]
        ]
      ]
    ]
  where
    not_true : {b : Bool} → not b ≡ true → b ≡ false
    not_true {b = true} h = sym h
    not_true {b = false} h = refl
