-- ===== src/Orchestrator/Execute/Rules.antt =====
-- Rules for the calls that `execute` makes into other components.
use quant_dominater.Base.{String, ◌≡◌, refl}
use quant_dominater.Base.Exits.{Post}
use quant_dominater.Orchestrator.Store.{Result, ok, err}
use quant_dominater.Orchestrator.Execute.World.{Outcome, returns, fails, panics, World, call, lift}

module _ {E P : World → Type 0} where
  pub Post-call_eq :
      {A : Type 0} (stage : String) (o : Outcome A)
      → ((w : World) → P w → E w)
      → Post E P (λ a w. P w × (o ≡ returns a)) (call stage o)
  unfolding call
  Post-call_eq stage (returns a) h = record { at = λ w p. (p, refl) }
  Post-call_eq stage (fails e) h = record { at = h }
  Post-call_eq stage panics h = record { at = h }

  pub Post-call :
      {A : Type 0} (stage : String) (o : Outcome A)
      → ((w : World) → P w → E w)
      → Post E P (λ _. P) (call stage o)
  unfolding call
  Post-call stage (returns a) h = record { at = λ w p. p }
  Post-call stage (fails e) h = record { at = h }
  Post-call stage panics h = record { at = h }

  pub Post-lift :
      {A : Type 0} (stage : String) (r : Result A)
      → ((w : World) → P w → E w)
      → Post E P (λ _. P) (lift stage r)
  unfolding lift
  Post-lift stage (ok a) h = record { at = λ w p. p }
  Post-lift stage (err e) h = record { at = h }
