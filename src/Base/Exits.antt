-- ===== src/Base/Exits.antt =====
-- A routine with early returns and panics as a function of its state, and rules for what holds where
-- a part of it is left.
use mathlib.Core.Path.{◌≡◌, refl}
use mathlib.Core.Option.{Option, none, some}
use Prim.Native.String.{String}

-- How a body is left: at its end, by an early return from a stage with an error, or by a panic with
-- a value of `π`, which is empty where nothing panics.
pub data Exit (π ε A : Type 0) : Type 0 where
  done : A → Exit π ε A
  stop : String → ε → Exit π ε A
  panicked : π → Exit π ε A

abbrev pub Routine : Type 0 → Type 0 → Type 0 → Type 0 → Type 0
Routine π ε S A = S → Exit π ε A × S

module _ {π ε S : Type 0} where
  unfoldable pub pure : {A : Type 0} → A → Routine π ε S A
  pure a w = (done a, w)

  unfoldable pub gets : {A : Type 0} → (S → A) → Routine π ε S A
  gets f w = (done (f w), w)

  unfoldable pub modify : (S → S) → Routine π ε S (Unit {0})
  modify f w = (done tt, f w)

  -- `if err != nil`, with a return from the stage
  unfoldable pub check : String → Option ε → Routine π ε S (Unit {0})
  check stage none w = (done tt, w)
  check stage (some e) w = (stop stage e, w)

  -- What follows an exit.
  abbrev pub continue : {A B : Type 0} → Exit π ε A → (A → Routine π ε S B) → Routine π ε S B
  continue (done a) f w = f a w
  continue (stop s e) f w = (stop s e, w)
  continue (panicked p) f w = (panicked p, w)

infixl 5 ◌>>=◌ ◌>>◌
unfoldable pub ◌>>=◌ :
    {π ε S A B : Type 0} → Routine π ε S A → (A → Routine π ε S B) → Routine π ε S B
unfolding pure gets modify check
◌>>=◌ m f w = let (r, w') = m w in continue r f w'

abbrev pub ◌>>◌ : {π ε S A B : Type 0} → Routine π ε S A → Routine π ε S B → Routine π ε S B
m >> k = m >>= λ _. k

-- `Q` of the value and the state at a normal end, `E` of the state at an early return or a panic.
abbrev pub Ends : {π ε S A : Type 0} → (A → S → Type 0) → (S → Type 0) → Exit π ε A → S → Type 0
Ends Q E (done a) w = Q a w
Ends Q E (stop s e) w = E w
Ends Q E (panicked p) w = E w

-- From a state with `P` the part ends with `Q`, or is left with `E`.
pub record Post {π ε S A : Type 0} (E P : S → Type 0) (Q : A → S → Type 0) (m : Routine π ε S A)
    : Type 0 where
  pub at : (w : S) → P w → Ends Q E (m w).0 (m w).1

module _ {π ε S A B : Type 0} {E : S → Type 0} {Q : A → S → Type 0} {R : B → S → Type 0} where
  Ends-continue :
      (f : A → Routine π ε S B) (exit : Exit π ε A) (w : S)
      → Ends Q E exit w
      → ((a : A) → Post E (Q a) R (f a))
      → Ends R E (continue exit f w).0 (continue exit f w).1
  Ends-continue f (done a) w h next = (next a).at w h
  Ends-continue f (stop s e) w h next = h
  Ends-continue f (panicked p) w h next = h

  pub Post-bind :
      {P : S → Type 0} (m : Routine π ε S A) (f : A → Routine π ε S B)
      → Post E P Q m
      → ((a : A) → Post E (Q a) R (f a))
      → Post E P R (m >>= f)
  unfolding ◌>>=◌
  Post-bind m f h next = record { at = λ w p. Ends-continue f (m w).0 (m w).1 (h.at w p) next }

module _ {π ε S : Type 0} {E P : S → Type 0} where
  pub Post-modify :
      {Q : S → Type 0} (f : S → S)
      → ((w : S) → P w → Q (f w))
      → Post {π = π} {ε = ε} E P (λ _. Q) (modify f)
  unfolding modify
  Post-modify f h = record { at = h }

  pub Post-gets : {A : Type 0} (f : S → A) → Post {π = π} {ε = ε} E P (λ _. P) (gets f)
  unfolding gets
  Post-gets f = record { at = λ w p. p }

  -- A failed check leaves with what held before it.
  pub Post-check_eq :
      (stage : String) (o : Option ε)
      → ((w : S) → P w → E w)
      → Post {π = π} E P (λ _ w. P w × (o ≡ none)) (check stage o)
  unfolding check
  Post-check_eq stage none h = record { at = λ w p. (p, refl) }
  Post-check_eq stage (some e) h = record { at = h }

  pub Post-check :
      (stage : String) (o : Option ε)
      → ((w : S) → P w → E w)
      → Post {π = π} E P (λ _. P) (check stage o)
  unfolding check
  Post-check stage none h = record { at = λ w p. p }
  Post-check stage (some e) h = record { at = h }

module _ {π ε S A : Type 0} {E P : S → Type 0} {Q : A → S → Type 0} {F : Type 0} where
  -- A fact that no state enters is one of the proof.
  pub Post-pure : (m : Routine π ε S A) → (F → Post E P Q m) → Post E (λ w. P w × F) Q m
  Post-pure m h = record { at = λ w pf. (h pf.1).at w pf.0 }

Ends-and :
    {π ε S A : Type 0} (E : S → Type 0) (Q Q' : A → S → Type 0) (exit : Exit π ε A) (w : S)
    → Ends Q E exit w
    → Ends Q' (λ _. Unit) exit w
    → Ends (λ a v. Q a v × Q' a v) E exit w
Ends-and E Q Q' (done a) w q q' = (q, q')
Ends-and E Q Q' (stop s e) w x _ = x
Ends-and E Q Q' (panicked _) w x _ = x

module _ {π ε S A : Type 0} {E P P' : S → Type 0} {Q Q' : A → S → Type 0} where
  pub Post-and :
      (m : Routine π ε S A)
      → Post E P Q m
      → Post (λ _. Unit) P' Q' m
      → Post E (λ w. P w × P' w) (λ a w. Q a w × Q' a w) m
  Post-and m p p' = record {
    at = λ w h. Ends-and E Q Q' (m w).0 (m w).1 (p.at w h.0) (p'.at w h.1);
  }

Ends-weaken :
    {π ε S A : Type 0} (E : S → Type 0) (Q R : A → S → Type 0) (exit : Exit π ε A) (w : S)
    → ((a : A) → Q a w → R a w)
    → Ends Q E exit w
    → Ends R E exit w
Ends-weaken E Q R (done a) w f q = f a q
Ends-weaken E Q R (stop s e) w f x = x
Ends-weaken E Q R (panicked p) w f x = x

module _ {π ε S A : Type 0} {E P : S → Type 0} {Q R : A → S → Type 0} where
  pub Post-weaken :
      (m : Routine π ε S A) → ((a : A) (w : S) → Q a w → R a w) → Post E P Q m → Post E P R m
  Post-weaken m f h = record {
    at = λ w p. Ends-weaken E Q R (m w).0 (m w).1 (λ a. f a (m w).1) (h.at w p);
  }
