-- ===== src/Engine/Ring.antt =====
-- examples/stub-engine/disruptor.go: `ring`, the bounded queue of many producers and one consumer.
use quant_dominater.Base.{
  ℕ, zero, suc, ◌+◌, ◌%◌, ◌^◌, ◌≤◌, ◌<◌, Option, none, some, List, [], ◌∷◌, ◌++◌, ◌≡◌, ◌≢◌, ◌==◌,
  if◌then◌else◌,
}

-- `r.slots[i]`; the zero request is `none`.
pub record Slot (A : Type 0) : Type 0 where
  pub seq : ℕ
  pub payload : Option A

-- Where the producer that claimed a position is in `publish`: it has not claimed it yet, it spins, it
-- has written the item, or it has stored the sequence number and returned.
pub data Phase : Type 0 where
  unclaimed spinning written published : Phase

-- The ring, the producers by the position that they claim, and what the consumer has returned so far.
pub record Ring (A : Type 0) : Type 0 where
  pub slots : ℕ → Slot A
  pub prod : ℕ
  pub cons : ℕ
  pub phase : ℕ → Phase
  pub out : List A

-- 1 << disruptorRingLog
abbrev pub size : ℕ
size = 16384

abbrev pub update : {B : Type 0} → ℕ → B → (ℕ → B) → ℕ → B
update i b f j = if j == i then b else f j

-- `newRing`
abbrev pub new_ring : {A : Type 0} → Ring A
new_ring = record {
  slots = λ i. record { seq = i; payload = none };
  prod = 0;
  cons = 0;
  phase = λ i. unclaimed;
  out = [];
}

-- A position of a uint64 that counts up.
abbrev pub wrap : ℕ → ℕ
wrap n = n % 2 ^ 64

module _ {A : Type 0} where
  -- `pos := r.prod.Add(1) - 1`
  unfoldable pub claim : Ring A → Ring A
  claim r = record r { prod = wrap (r.prod + 1); phase = update r.prod spinning r.phase }

  -- `s.data = item`, behind the spin loop, by the producer at `pos`
  unfoldable pub write : ℕ → A → Ring A → Ring A
  write pos item r = record r {
    slots =
        update (pos % size) (record { seq = (r.slots (pos % size)).seq; payload = some item })
          r.slots;
    phase = update pos written r.phase;
  }

  -- `s.seq.Store(pos + 1)`
  unfoldable pub release : ℕ → Ring A → Ring A
  release pos r = record r {
    slots =
        update (pos % size)
          (record { seq = wrap (pos + 1); payload = (r.slots (pos % size)).payload }) r.slots;
    phase = update pos published r.phase;
  }

  -- `consume`, behind its spin loop: the item, the slot without it, and the slot freed one round ahead.
  unfoldable pub consume : A → Ring A → Ring A
  consume item r = record r {
    slots = update (r.cons % size) (record { seq = wrap (r.cons + size); payload = none }) r.slots;
    cons = wrap (r.cons + 1);
    out = r.out ++ (item ∷ []);
  }

-- The ring after `n` claims, in any interleaving; `item pos` is what the producer that claims `pos`
-- publishes.
module _ {A : Type 0} (item : ℕ → A) where
  pub data Reached : ℕ → Ring A → Type 0 where
    start : Reached 0 new_ring
    claims : (n : ℕ) (r : Ring A) → Reached n r → Reached (suc n) (claim r)
    writes :
        (n : ℕ) (r : Ring A) (pos : ℕ)
        → r.phase pos ≡ spinning
        → (r.slots (pos % size)).seq ≡ pos
        → Reached n r
        → Reached n (write pos (item pos) r)
    releases :
        (n : ℕ) (r : Ring A) (pos : ℕ)
        → r.phase pos ≡ written
        → Reached n r
        → Reached n (release pos r)
    consumes :
        (n : ℕ) (r : Ring A) (a : A)
        → (r.slots (r.cons % size)).seq ≡ wrap (r.cons + 1)
        → (r.slots (r.cons % size)).payload ≡ some a
        → Reached n r
        → Reached n (consume a r)

  -- What has been claimed up to a position, in the order of the positions.
  abbrev pub claimed_items : ℕ → List A
  claimed_items zero = []
  claimed_items (suc n) = claimed_items n ++ (item n ∷ [])

  -- What the slot of a position in the consumer's round holds.
  abbrev pub Held : ℕ → Slot A → Phase → Type 0
  Held pos s unclaimed = s.seq ≡ pos
  Held pos s spinning = s.seq ≡ pos
  Held pos s written = (s.seq ≡ pos) × (s.payload ≡ some (item pos))
  Held pos s published = (s.seq ≡ pos + 1) × (s.payload ≡ some (item pos))

  -- The producers ahead of the round wait.
  abbrev pub Ahead : Phase → Type 0
  Ahead unclaimed = Unit
  Ahead spinning = Unit
  Ahead written = ⊥
  Ahead published = ⊥

  pub record Sound (n : ℕ) (r : Ring A) : Type 0 where
    pub counted : r.prod ≡ n
    pub behind : r.cons ≤ n
    pub fresh : (p : ℕ) → n ≤ p → r.phase p ≡ unclaimed
    pub taken : (p : ℕ) → p < n → r.phase p ≢ unclaimed
    pub in_round :
        (p : ℕ) → r.cons ≤ p → p < r.cons + size → Held p (r.slots (p % size)) (r.phase p)
    pub ahead : (p : ℕ) → r.cons + size ≤ p → Ahead (r.phase p)
    pub done : (p : ℕ) → p < r.cons → r.phase p ≡ published
    pub in_order : r.out ≡ claimed_items r.cons
