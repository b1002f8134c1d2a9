-- ===== src/Engine/Search.antt =====
-- Go's `sort.Search`, the binary search that examples/stub-engine/main.go calls.
use quant_dominater.Base.{
  ℕ, zero, suc, ◌+◌, ◌-◌, ◌/◌, ◌≤◌, ◌<◌, Bool, true, false, ◌≡◌, ltb, arith, inl, inr, Bool-cases,
}

-- The loop over `i` and `j`, which narrows until they meet; `n` rounds are enough.
unfoldable pub search_loop : ℕ → (ℕ → Bool) → ℕ → ℕ → ℕ
search_loop zero f i j = i
search_loop (suc fuel) f i j = elim (ltb i j) [
  | false ↦ i
  | true ↦ elim (f ((i + j) / 2)) [
    | false ↦ search_loop fuel f ((i + j) / 2 + 1) j
    | true ↦ search_loop fuel f i ((i + j) / 2)
  ]
]

-- `sort.Search(n, f)`
unfoldable pub search : ℕ → (ℕ → Bool) → ℕ
unfolding search_loop
search n f = search_loop n f 0 n

-- Once `f` holds it goes on to hold.
abbrev pub IsMonotone : ℕ → (ℕ → Bool) → Type 0
IsMonotone n f = (i j : ℕ) → i ≤ j → j < n → f i ≡ true → f j ≡ true

-- `i` is the first index of `n` at which `f` holds, or `n`.
pub record IsFirst (n : ℕ) (f : ℕ → Bool) (i : ℕ) : Type 0 where
  pub within : i ≤ n
  pub below : (k : ℕ) → k < i → f k ≡ false
  pub above : (k : ℕ) → i ≤ k → k < n → f k ≡ true

module _ (n : ℕ) (f : ℕ → Bool) (mono : IsMonotone n f) where
  not_below : (m k : ℕ) → k ≤ m → m < n → f m ≡ false → f k ≡ false
  not_below m k h b e = elim (Bool-cases (f k)) [ inl t ↦ cc (mono k m h b t) | inr g ↦ g ]

  search_loop-IsFirst :
      (fuel i j : ℕ)
      → j - i ≤ fuel
      → i ≤ j
      → j ≤ n
      → ((k : ℕ) → k < i → f k ≡ false)
      → ((k : ℕ) → j ≤ k → k < n → f k ≡ true)
      → IsFirst n f (search_loop fuel f i j)
  unfolding search_loop
  search_loop-IsFirst zero i j h ij jn lo hi = record {
    within = omega arith;
    below = lo;
    above = λ k p q. hi k (omega arith) q;
  }
  search_loop-IsFirst (suc fuel) i j h ij jn lo hi = elim (Bool-cases (ltb i j)) [
    | inr e ↦
        rw (e, search_loop)
          (record { within = omega arith; below = lo; above = λ k p q. hi k (ground arith) q })
    | inl e ↦
        let lt : i < j = ground arith in
        elim (Bool-cases (f ((i + j) / 2))) [
          | inr g ↦
              rw (e, g, search_loop)
                (search_loop-IsFirst fuel ((i + j) / 2 + 1) j (omega arith) (omega arith) jn
                  (λ k p. not_below ((i + j) / 2) k (omega arith) (omega arith) g) hi)
          | inl g ↦
              rw (e, g, search_loop)
                (search_loop-IsFirst fuel i ((i + j) / 2) (omega arith) (omega arith) (omega arith)
                  lo (λ k p q. mono ((i + j) / 2) k p q g))
        ]
  ]

  -- The search finds the first index, in at most `n` rounds.
  pub search-IsFirst : IsFirst n f (search n f)
  unfolding search
  search-IsFirst =
      search_loop-IsFirst n 0 n (omega arith) (omega arith) (omega arith)
        (λ k h. absurd (omega arith)) (λ k h q. absurd (omega arith))
