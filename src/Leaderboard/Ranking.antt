-- ===== src/Leaderboard/Ranking.antt =====
-- services/leaderboard-api/internal/board/board.go: the comparison that `snapshotLocked` sorts by.
use quant_dominater.Base.{
  ℕ, Bool, true, false, ◌||◌, ◌≡◌, ltb, if◌then◌else◌, arith, inl, inr, ◌⊎◌, refl, sym, ◌∙◌,
}
use quant_dominater.Base.Int.{ℤ, ltb_ℤ, eqb_ℤ}
use quant_dominater.Base.Float.{is_nan, order_key}
use quant_dominater.Leaderboard.Board.{Entry, ranks_before}

-- The comparison once no score is NaN.
abbrev key_before : ℤ → ℕ → ℤ → ℕ → Bool
key_before s t s' t' = if eqb_ℤ s s' then ltb t t' else ltb_ℤ s' s

ranks_before-key_before :
    (a b : Entry)
    → is_nan a.score ≡ false
    → is_nan b.score ≡ false
    → ranks_before a b
      ≡ key_before (order_key a.score) a.updated_at (order_key b.score) b.updated_at
ranks_before-key_before a b h k = by_tests (is_nan a.score) (is_nan b.score) h k
  where
    by_tests :
        (p q : Bool)
        → p ≡ false
        → q ≡ false
        → (if (if p || q then false else eqb_ℤ (order_key a.score) (order_key b.score))
            then ltb a.updated_at b.updated_at
            else (if q || p then false else ltb_ℤ (order_key b.score) (order_key a.score)))
          ≡ key_before (order_key a.score) a.updated_at (order_key b.score) b.updated_at
    by_tests false false h k = refl
    by_tests true q h k = absurd cc
    by_tests false true h k = absurd cc

key_before_asym : (s s' : ℤ) (t t' : ℕ) → key_before s t s' t' ≡ true → key_before s' t' s t ≡ false
key_before_asym s s' t t' h = ground arith

key_before_trans :
    (s s' s'' : ℤ) (t t' t'' : ℕ)
    → key_before s t s' t' ≡ true
    → key_before s' t' s'' t'' ≡ true
    → key_before s t s'' t'' ≡ true
key_before_trans s s' s'' t t' t'' h k = ground arith

-- Not to rank before goes on as well: entries with the same score and time are interchangeable.
key_before_cotrans :
    (s s' s'' : ℤ) (t t' t'' : ℕ)
    → key_before s t s'' t'' ≡ true
    → (key_before s t s' t' ≡ true) ⊎ (key_before s' t' s'' t'' ≡ true)
key_before_cotrans s s' s'' t t' t'' h = ground arith

-- On entries whose scores are numbers, the comparison is a strict weak order, as `sort.Slice` asks for:
-- no two entries rank before each other, ranking before is transitive, and of two entries of which the
-- first ranks before the second, any third ranks after the first or before the second.
pub ranks_before_weak :
    (a b c : Entry)
    → is_nan a.score ≡ false
    → is_nan b.score ≡ false
    → is_nan c.score ≡ false
    → (ranks_before a b ≡ true → ranks_before b a ≡ false)
      × (ranks_before a b ≡ true → ranks_before b c ≡ true → ranks_before a c ≡ true)
      × (ranks_before a c ≡ true → (ranks_before a b ≡ true) ⊎ (ranks_before b c ≡ true))
ranks_before_weak a b c h k l =
    let ab = ranks_before-key_before a b h k in
    let ba = ranks_before-key_before b a k h in
    let bc = ranks_before-key_before b c k l in
    let ac = ranks_before-key_before a c h l in
    (
      λ p. ba ∙ key_before_asym (order_key a.score) _ a.updated_at _ (sym ab ∙ p),
      λ p q.
          ac
          ∙ key_before_trans (order_key a.score) (order_key b.score) _ a.updated_at b.updated_at _
              (sym ab ∙ p) (sym bc ∙ q),
      λ p.
          elim (key_before_cotrans (order_key a.score) (order_key b.score) (order_key c.score)
            a.updated_at b.updated_at c.updated_at (sym ac ∙ p)) [
              | inl q ↦ inl (ab ∙ q)
              | inr q ↦ inr (bc ∙ q)
            ],
    )
