-- ===== src/Engine/Publish.antt =====
-- examples/stub-engine/disruptor.go: `publish` up to the write of the item, and the ring.
use quant_dominater.Base.{
  ℕ, suc, ◌+◌, ◌-◌, ◌%◌, ◌^◌, ◌≤◌, ◌<◌, true, false, some, ◌≡◌, ◌≢◌, ◌⊎◌, inl, inr, refl, sym,
  subst, arith, ◌==◌, Bool-cases,
}
use quant_dominater.Engine.Ring.{
  Slot, Phase, unclaimed, spinning, written, published, Ring, size, update, new_ring, wrap, claim,
  write, Held, Sound,
}

pub eq_self : (n : ℕ) → (n == n) ≡ true
eq_self n = ground arith

pub eq_sound : (a b : ℕ) → (a == b) ≡ true → a ≡ b
eq_sound a b h = ground arith

pub lt_or_le : (a b : ℕ) → (a < b) ⊎ (b ≤ a)
lt_or_le a b = ground arith

-- Two positions of one round have different slots.
pub other_slot :
    (c p q : ℕ)
    → c ≤ p
    → p < c + size
    → c ≤ q
    → q < c + size
    → (p == q) ≡ false
    → (p % size == q % size) ≡ false
other_slot c p q a b d e h = ground arith

pub inside : (p c : ℕ) → (p % size == c % size) ≡ false → p < suc c + size → p < c + size
inside p c e h = ground arith

pub wrap_small : (n : ℕ) → n < 2 ^ 64 → wrap n ≡ n
wrap_small n h = omega arith

module _ {A : Type 0} (item : ℕ → A) where
  Held-seq : (p : ℕ) (s : Slot A) (ph : Phase) → Held item p s ph → (s.seq ≡ p) ⊎ (s.seq ≡ p + 1)
  Held-seq p s unclaimed h = inl h
  Held-seq p s spinning h = inl h
  Held-seq p s written h = inl h.0
  Held-seq p s published h = inr h.0

  -- Only the slot's own round lets a producer write.
  may_write :
      (n : ℕ) (r : Ring A) (pos : ℕ)
      → Sound item n r
      → r.phase pos ≡ spinning
      → (r.slots (pos % size)).seq ≡ pos
      → (r.cons ≤ pos) × (pos < r.cons + size) × (pos < n)
  may_write n r pos s ph sq = (reached, in_time, claimed)
    where
      claimed : pos < n
      claimed = elim (lt_or_le pos n) [ inl h ↦ h | inr h ↦ absurd (cc (s.fresh pos h)) ]

      reached : r.cons ≤ pos
      reached = elim (lt_or_le pos r.cons) [ inl h ↦ absurd (cc (s.done pos h)) | inr h ↦ h ]

      same : (r.cons + (pos - r.cons) % size) % size ≡ pos % size
      same = omega (arith, reached)

      in_time : pos < r.cons + size
      in_time = elim (lt_or_le pos (r.cons + size)) [
        | inl h ↦ h
        | inr h ↦
            let q = r.cons + (pos - r.cons) % size in
            let held = s.in_round q (omega arith) (omega arith) in
            let at = subst (λ (k : ℕ). Held item q (r.slots k) (r.phase q)) same held in
            absurd (elim (Held-seq q _ _ at) [
              | inl e ↦ omega (arith, e, sq)
              | inr e ↦ omega (arith, e, sq)
            ])
      ]

  pub start-Sound : Sound item 0 new_ring
  start-Sound = record {
    counted = refl;
    behind = omega arith;
    fresh = λ p h. refl;
    taken = λ p h. absurd (omega arith);
    in_round = λ p a b. omega arith;
    ahead = λ p h. tt;
    done = λ p h. absurd (omega arith);
    in_order = refl;
  }

  pub claim-Sound :
      (n : ℕ) (r : Ring A) → suc n < 2 ^ 64 → Sound item n r → Sound item (suc n) (claim r)
  unfolding claim
  claim-Sound n r small s = record {
    counted = omega (arith, s.counted);
    behind = omega (arith, s.behind);
    fresh = λ p h. rw (off p (omega arith)) (s.fresh p (omega arith));
    taken = λ p h. elim (Bool-cases (p == r.prod)) [
      | inl e ↦ rw e (λ q. cc)
      | inr e ↦ rw e (s.taken p (less p e h))
    ];
    in_round = λ p a b. elim (Bool-cases (p == r.prod)) [
      | inl e ↦ rw e (subst (Held item p (r.slots (p % size))) (at_prod p e) (s.in_round p a b))
      | inr e ↦ rw e (s.in_round p a b)
    ];
    ahead = λ p h. elim (Bool-cases (p == r.prod)) [ inl e ↦ rw e tt | inr e ↦ rw e (s.ahead p h) ];
    done = λ p h. rw (off p (omega (arith, s.behind, s.counted))) (s.done p h);
    in_order = s.in_order;
  }
    where
      off : (p : ℕ) → p ≢ r.prod → (p == r.prod) ≡ false
      off p h = ground arith

      less : (p : ℕ) → (p == r.prod) ≡ false → p < suc n → p < n
      less p e h = let c = s.counted in ground arith

      at_prod : (p : ℕ) → (p == r.prod) ≡ true → r.phase p ≡ unclaimed
      at_prod p e = let c = s.counted in s.fresh p (ground arith)

  pub write-Sound :
      (n : ℕ) (r : Ring A) (pos : ℕ)
      → r.phase pos ≡ spinning
      → (r.slots (pos % size)).seq ≡ pos
      → Sound item n r
      → Sound item n (write pos (item pos) r)
  unfolding write
  write-Sound n r pos ph sq s =
      let (low, high, claimed) = may_write n r pos s ph sq in
      record {
        counted = s.counted;
        behind = s.behind;
        fresh = λ p h. rw (off p (omega (arith, claimed))) (s.fresh p h);
        taken = λ p h. elim (Bool-cases (p == pos)) [
          | inl e ↦ rw e (λ q. cc)
          | inr e ↦ rw e (s.taken p h)
        ];
        in_round = λ p a b. elim (Bool-cases (p == pos)) [
          | inl e ↦
              subst
                (λ q.
                  Held item q
                    (update (pos % size)
                      (record { seq = (r.slots (pos % size)).seq; payload = some (item pos) })
                      r.slots (q % size))
                    (update pos written r.phase q))
                (sym (eq_sound p pos e)) (rw (eq_self (pos % size), eq_self pos) (sq, refl))
          | inr e ↦ rw (other_slot r.cons p pos a b low high e, e) (s.in_round p a b)
        ];
        ahead = λ p h. rw (off p (omega (arith, high))) (s.ahead p h);
        done = λ p h. rw (off p (omega (arith, low))) (s.done p h);
        in_order = s.in_order;
      }
    where
      off : (p : ℕ) → p ≢ pos → (p == pos) ≡ false
      off p h = ground arith
