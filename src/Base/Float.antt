-- ===== src/Base/Float.antt =====
-- Go's float64, as its 64-bit pattern: the tests and comparisons of the language, which are exact.
use quant_dominater.Base.{ℕ, ◌%◌, Bool, false, not, ◌&&◌, ◌||◌, ltb, leb, ◌==◌, if◌then◌else◌}
use quant_dominater.Base.Int.{ℤ, pos, sub_ℕ, ltb_ℤ, eqb_ℤ}

abbrev pub Float64 : Type 0
Float64 = ℕ

abbrev pub sign_bit : ℕ
sign_bit = 0x8000_0000_0000_0000

abbrev pub inf_bits : ℕ
inf_bits = 0x7ff0_0000_0000_0000

abbrev pub magnitude : Float64 → ℕ
magnitude x = x % sign_bit

-- `math.IsNaN`
abbrev pub is_nan : Float64 → Bool
is_nan x = ltb inf_bits (magnitude x)

-- `math.IsInf(x, 0)`
abbrev pub is_inf : Float64 → Bool
is_inf x = magnitude x == inf_bits

-- Finite values and infinities in their order; both zeros are 0.
abbrev pub order_key : Float64 → ℤ
order_key x = if leb sign_bit x then sub_ℕ 0 (magnitude x) else pos (magnitude x)

-- `x < y`, false where either is NaN
abbrev pub float_lt : Float64 → Float64 → Bool
float_lt x y = if is_nan x || is_nan y then false else ltb_ℤ (order_key x) (order_key y)

-- `x == y`, false where either is NaN
abbrev pub float_eq : Float64 → Float64 → Bool
float_eq x y = if is_nan x || is_nan y then false else eqb_ℤ (order_key x) (order_key y)

-- what `encoding/json` can write
abbrev pub is_finite : Float64 → Bool
is_finite x = not (is_nan x) && not (is_inf x)
