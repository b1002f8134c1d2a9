-- ===== src/Engine/Order.antt =====
-- examples/stub-engine/main.go: `Order`, `orderBefore` and the messages of the engine.
use quant_dominater.Base.{
  ℕ, ◌<◌, String, Bool, true, false, not, Option, ◌≡◌, ltb, ◌==◌, if◌then◌else◌, arith,
}
use quant_dominater.Base.Int.{ℤ, ltb_ℤ, eqb_ℤ, ◌≤ℤ◌}

-- The texts "BUY" and "SELL" of an accepted order.
pub data Side : Type 0 where
  buy sell : Side

-- A client is the address of its connection record.
abbrev pub Client : Type 0
Client = ℕ

-- `addr` is the order's own address: `==` on `*Order` compares it. A resting order's quantity is
-- positive, and a fill takes at most that much, so it is a number.
pub record Order : Type 0 where
  pub addr : ℕ
  pub id : String
  pub symbol : String
  pub side : Side
  pub price : ℤ
  pub qty : ℕ
  pub ts_ns : ℕ
  pub insert_seq : ℕ
  pub owner : Option Client

-- `orderBefore`
unfoldable pub order_before : Side → Bool → Order → Order → Bool
order_before side broken a b =
    if not (eqb_ℤ a.price b.price)
    then (elim side [ buy ↦ ltb_ℤ b.price a.price | sell ↦ ltb_ℤ a.price b.price ])
    else if not (a.ts_ns == b.ts_ns)
    then (if broken then ltb b.ts_ns a.ts_ns else ltb a.ts_ns b.ts_ns)
    else ltb a.insert_seq b.insert_seq

-- On each side, in either mode, the comparison is transitive.
pub order_before_trans :
    (side : Side) (broken : Bool) (a b c : Order)
    → order_before side broken a b ≡ true
    → order_before side broken b c ≡ true
    → order_before side broken a c ≡ true
unfolding order_before
order_before_trans buy broken a b c p q = ground arith
order_before_trans sell broken a b c p q = ground arith

-- Of an order and one inserted before it, one is before the other.
pub order_before_total :
    (side : Side) (broken : Bool) (a b : Order)
    → order_before side broken a b ≡ false
    → b.insert_seq < a.insert_seq
    → order_before side broken b a ≡ true
unfolding order_before
order_before_total buy broken a b p q = ground arith
order_before_total sell broken a b p q = ground arith

pub order_before_asym :
    (side : Side) (broken : Bool) (a b : Order)
    → order_before side broken a b ≡ true
    → order_before side broken b a ≡ false
unfolding order_before
order_before_asym buy broken a b p = ground arith
order_before_asym sell broken a b p = ground arith

-- `a`'s price is at least as good as `b`'s for whoever trades with the side.
abbrev pub NoWorse : Side → ℤ → ℤ → Type 0
NoWorse buy a b = b ≤ℤ a
NoWorse sell a b = a ≤ℤ b

pub order_before-NoWorse :
    (side : Side) (broken : Bool) (a b : Order)
    → order_before side broken a b ≡ true
    → NoWorse side a.price b.price
unfolding order_before
order_before-NoWorse buy broken a b p = ground arith
order_before-NoWorse sell broken a b p = ground arith
