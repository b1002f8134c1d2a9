-- ===== src/Engine/Book.antt =====
-- examples/stub-engine/main.go: one side of a book, `insertSorted` and `removeOrder`.
use quant_dominater.Base.{
  ℕ, suc, Bool, true, not, Option, none, some, List, [], ◌∷◌, ◌++◌, ◌≡◌, length, get_elem?, take,
  drop, All, ◌==◌, if◌then◌else◌,
}
use quant_dominater.Engine.Order.{Side, Order, order_before}
use quant_dominater.Engine.Search.{search}

-- `p(s[i])`: `sort.Search` asks for no index out of range, where Go would panic.
abbrev pub test_at : (Order → Bool) → List Order → ℕ → Bool
test_at p s i = elim (get_elem? s i) [ some x ↦ p x | none ↦ true ]

-- `s = append(s, nil); copy(s[i+1:], s[i:]); s[i] = o`
abbrev pub insert_at : List Order → ℕ → Order → List Order
insert_at s i o = take i s ++ (o ∷ drop i s)

-- `append(s[:i], s[i+1:]...)`
abbrev pub remove_at : List Order → ℕ → List Order
remove_at s i = take i s ++ drop (suc i) s

-- `insertSorted`
unfoldable pub insert_sorted : Side → Bool → Order → List Order → List Order
insert_sorted side broken o s =
    insert_at s (search (length s) (test_at (λ x. order_before side broken o x) s)) o

-- `if i >= len(s) || s[i] != ord { return false }`, and the removal behind it
abbrev pub remove_found : Order → List Order → ℕ → Option Order → Option (List Order)
remove_found ord s i none = none
remove_found ord s i (some x) = if x.addr == ord.addr then some (remove_at s i) else none

-- `removeOrder`, on the side of the order: `none` where the order is not resting.
unfoldable pub remove_order : Bool → Order → List Order → Option (List Order)
remove_order broken ord s =
    let i = search (length s) (test_at (λ x. not (order_before ord.side broken x ord)) s) in
    remove_found ord s i (get_elem? s i)

-- Each order is before all that stand behind it.
abbrev pub IsLadder : Side → Bool → List Order → Type 0
IsLadder side broken [] = Unit
IsLadder side broken (x ∷ xs) =
    All (λ y. order_before side broken x y ≡ true) xs × IsLadder side broken xs
