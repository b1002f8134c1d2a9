-- ===== src/Leaderboard/Codec.antt =====
-- Numbers as texts, for the runs at concrete inputs: a natural number is written
-- in strokes.
use Prim.Native.String.{String, [], ◌∷◌}
use Prim.Native.Char.{code}
use quant_dominater.Base.{
  ℕ, zero, suc, false, Option, none, some, ◌==◌, ◌≡◌, refl, ap, str_eq, str_eq-cases, inl, inr,
  if◌then◌else◌, arith,
}
use quant_dominater.Base.Int.{ℤ, pos, negsuc}
use quant_dominater.Base.Float.{Float64}
use quant_dominater.Leaderboard.Redis.{Texts}
use quant_dominater.Leaderboard.Scorecards.{TextLaws}

abbrev strokes : ℕ → String
strokes zero = ""
strokes (suc n) = "1" ∷ strokes n

abbrev count : String → ℕ
count [] = 0
count (c ∷ s) = suc (count s)

count-strokes : (n : ℕ) → count (strokes n) ≡ n
count-strokes zero = refl
count-strokes (suc n) = ap (λ k. suc k) (count-strokes n)

abbrev write_int : ℤ → String
write_int (pos zero) = "0"
write_int (pos (suc n)) = "1" ∷ strokes n
write_int (negsuc n) = "-" ∷ strokes n

abbrev read_int : String → ℤ
read_int [] = pos 0
read_int (c ∷ s) =
    if code c == 45
    then negsuc (count s)
    else if code c == 48
    then pos (count s)
    else pos (suc (count s))

abbrev read_float : String → Option Float64
read_float [] = none
read_float (c ∷ s) = some (count s)

abbrev pub in_strokes : Texts
in_strokes = record {
  of_int = write_int;
  of_float = λ x. "1" ∷ strokes x;
  to_float = read_float;
  to_int = read_int;
}

read_int-write_int : (n : ℤ) → read_int (write_int n) ≡ n
read_int-write_int (pos zero) = refl
read_int-write_int (pos (suc n)) = ap (λ k. pos (suc k)) (count-strokes n)
read_int-write_int (negsuc n) = ap (λ k. negsuc k) (count-strokes n)

nonempty : (s : String) → str_eq ("1" ∷ s) "" ≡ false
nonempty s = elim (str_eq-cases ("1" ∷ s) "") [
  | inl (e, p) ↦ absurd (impossible (ap count p))
  | inr e ↦ e
]
  where
    impossible : suc (count s) ≡ 0 → ⊥
    impossible h = omega arith

pub in_strokes-TextLaws : TextLaws in_strokes
in_strokes-TextLaws = record {
  int_text = λ n h. read_int-write_int n;
  float_text = λ x h. ap (λ k. some k) (count-strokes x);
  float_nonempty = λ x. nonempty (strokes x);
  one_text = refl;
  zero_text = refl;
}
