-- ===== src/Engine/Fifo.antt =====
-- examples/stub-engine/disruptor.go: `ring` loses, repeats and reorders nothing.
use quant_dominater.Base.{
  ℕ, suc, ◌+◌, ◌%◌, ◌^◌, ◌≤◌, ◌<◌, false, none, some, [], ◌∷◌, ◌++◌, ◌≡◌, ◌≢◌, inl, inr, refl, sym,
  ap₂, subst, ◌∙◌, arith, ◌==◌, Bool-cases,
}
use mathlib.Core.Option
use quant_dominater.Engine.Ring.{
  Slot, Phase, unclaimed, spinning, written, published, Ring, size, update, wrap, release, consume,
  Reached, start, claims, writes, releases, consumes, claimed_items, Held, Ahead, Sound,
}
use quant_dominater.Engine.Publish.{
  eq_self, eq_sound, lt_or_le, other_slot, inside, wrap_small, start-Sound, claim-Sound,
  write-Sound,
}

module _ {A : Type 0} (item : ℕ → A) where
  -- A producer that has written its item is in the consumer's round.
  may_release :
      (n : ℕ) (r : Ring A) (pos : ℕ)
      → Sound item n r
      → r.phase pos ≡ written
      → (r.cons ≤ pos) × (pos < r.cons + size) × (pos < n)
  may_release n r pos s ph = (reached, in_time, claimed)
    where
      claimed : pos < n
      claimed = elim (lt_or_le pos n) [ inl h ↦ h | inr h ↦ absurd (cc (s.fresh pos h)) ]

      reached : r.cons ≤ pos
      reached = elim (lt_or_le pos r.cons) [ inl h ↦ absurd (cc (s.done pos h)) | inr h ↦ h ]

      in_time : pos < r.cons + size
      in_time = elim (lt_or_le pos (r.cons + size)) [
        | inl h ↦ h
        | inr h ↦ absurd (subst (Ahead item) ph (s.ahead pos h))
      ]

  release-Sound :
      (n : ℕ) (r : Ring A) (pos : ℕ)
      → n < 2 ^ 64
      → r.phase pos ≡ written
      → Sound item n r
      → Sound item n (release pos r)
  unfolding release
  release-Sound n r pos small ph s =
      let (low, high, claimed) = may_release n r pos s ph in
      let held = subst (Held item pos (r.slots (pos % size))) ph (s.in_round pos low high) in
      record {
        counted = s.counted;
        behind = s.behind;
        fresh = λ p h. rw (off p (omega (arith, claimed))) (s.fresh p h);
        taken = λ p h. elim (Bool-cases (p == pos)) [
          | inl e ↦ rw e (λ q. cc)
          | inr e ↦ rw e (s.taken p h)
        ];
        in_round = λ p a b. elim (Bool-cases (p == pos)) [
          | inl e ↦
              subst
                (λ q.
                  Held item q
                    (update (pos % size)
                      (record { seq = wrap (pos + 1); payload = (r.slots (pos % size)).payload })
                      r.slots (q % size))
                    (update pos published r.phase q))
                (sym (eq_sound p pos e))
                (rw (eq_self (pos % size), eq_self pos)
                  (wrap_small (pos + 1) (omega (arith, claimed)), held.1))
          | inr e ↦ rw (other_slot r.cons p pos a b low high e, e) (s.in_round p a b)
        ];
        ahead = λ p h. rw (off p (omega (arith, high))) (s.ahead p h);
        done = λ p h. rw (off p (omega (arith, low))) (s.done p h);
        in_order = s.in_order;
      }
    where
      off : (p : ℕ) → p ≢ pos → (p == pos) ≡ false
      off p h = ground arith

  -- The slot that the consumer reads holds the next item.
  may_consume :
      (n : ℕ) (r : Ring A) (ph : Phase)
      → n + size < 2 ^ 64
      → Sound item n r
      → (r.slots (r.cons % size)).seq ≡ wrap (r.cons + 1)
      → r.phase r.cons ≡ ph
      → (r.phase r.cons ≡ published) × ((r.slots (r.cons % size)).payload ≡ some (item r.cons))
  may_consume n r ph small s sq e =
      let held =
        subst (Held item r.cons (r.slots (r.cons % size))) e
          (s.in_round r.cons (omega arith) (omega arith)) in
      at ph e held
    where
      next_seq : (r.slots (r.cons % size)).seq ≡ r.cons + 1
      next_seq = sq ∙ wrap_small (r.cons + 1) (omega (arith, s.behind))

      at :
          (q : Phase)
          → r.phase r.cons ≡ q
          → Held item r.cons (r.slots (r.cons % size)) q
          → (r.phase r.cons ≡ published) × ((r.slots (r.cons % size)).payload ≡ some (item r.cons))
      at unclaimed f h = absurd (omega (arith, next_seq, h))
      at spinning f h = absurd (omega (arith, next_seq, h))
      at written f h = absurd (omega (arith, next_seq, h.0))
      at published f h = (f, h.1)

  Ahead-Held : (p : ℕ) (s : Slot A) (ph : Phase) → s.seq ≡ p → Ahead item ph → Held item p s ph
  Ahead-Held p s unclaimed e h = e
  Ahead-Held p s spinning e h = e
  Ahead-Held p s written e h = absurd h
  Ahead-Held p s published e h = absurd h

  consume-Sound :
      (n : ℕ) (r : Ring A) (a : A)
      → n + size < 2 ^ 64
      → (r.slots (r.cons % size)).seq ≡ wrap (r.cons + 1)
      → (r.slots (r.cons % size)).payload ≡ some a
      → Sound item n r
      → Sound item n (consume a r)
  unfolding consume
  consume-Sound n r a small sq got s =
      let (ph, full) = may_consume n r (r.phase r.cons) small s sq refl in
      let claimed : r.cons < n = elim (lt_or_le r.cons n) [
        | inl h ↦ h
        | inr h ↦ absurd (cc (s.fresh r.cons h))
      ] in
      let up : wrap (r.cons + 1) ≡ suc r.cons = omega (arith, claimed) in
      let far : wrap (r.cons + size) ≡ r.cons + size = omega (arith, claimed) in
      record {
        counted = s.counted;
        behind = omega (arith, claimed);
        fresh = s.fresh;
        taken = s.taken;
        in_round = λ p a b. elim (Bool-cases (p % size == r.cons % size)) [
          | inl e ↦ rw e (
              Ahead-Held p (record { seq = wrap (r.cons + size); payload = none }) (r.phase p)
                (far ∙ omega (arith, eq_sound _ _ e, up, a, b))
                (s.ahead p (omega (arith, eq_sound _ _ e, up, a, b))))
          | inr e ↦
              rw e (s.in_round p (omega (arith, up, a)) (inside p r.cons e (omega (arith, up, b))))
        ];
        ahead = λ p h. s.ahead p (omega (arith, up, h));
        done = λ p h. elim (lt_or_le p r.cons) [
          | inl l ↦ s.done p l
          | inr l ↦ subst (λ q. r.phase q ≡ published) (omega (arith, up, h, l)) ph
        ];
        in_order =
            subst (λ k. r.out ++ (a ∷ []) ≡ claimed_items item k) (sym up)
              (ap₂ (λ l x. l ++ (x ∷ [])) s.in_order (Option.some_inj.0 (sym got ∙ full)));
      }

  -- In every interleaving of any number of producers and the consumer, as long as there are fewer than
  -- 2^64 - 16384 claims, so that the positions do not wrap around: what the consumer has returned is what the producers published, in the order in which
  -- they claimed their positions, with nothing lost, repeated or overwritten.
  pub Reached-Sound : (n : ℕ) (r : Ring A) → n + size < 2 ^ 64 → Reached item n r → Sound item n r
  Reached-Sound _ _ small start = start-Sound item
  Reached-Sound _ _ small (claims n r h) =
      claim-Sound item n r (omega arith) (Reached-Sound n r (omega arith) h)
  Reached-Sound n _ small (writes _ r pos ph sq h) =
      write-Sound item n r pos ph sq (Reached-Sound n r small h)
  Reached-Sound n _ small (releases _ r pos ph h) =
      release-Sound n r pos (omega arith) ph (Reached-Sound n r small h)
  Reached-Sound n _ small (consumes _ r a sq got h) =
      consume-Sound n r a small sq got (Reached-Sound n r small h)
