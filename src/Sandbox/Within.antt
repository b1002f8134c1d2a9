-- ===== src/Sandbox/Within.antt =====
-- The test of services/sandbox-runner/internal/sandbox/artifact.go for a target in the destination.
use quant_dominater.Base.{
  ap₂, Bool-cases, true, [], ◌∷◌, ◌++◌, ◌≡◌, refl, ap, inl, inr, ◌==◌, ==_iff,
}
use quant_dominater.Sandbox.Paths.{Text, text_eq, Parts, FilePath}
use quant_dominater.Sandbox.Unzip.{parts_eq, is_within}

text_eq→eq : (s t : Text) → text_eq s t ≡ true → s ≡ t
text_eq→eq [] [] = λ h. refl
text_eq→eq [] (d ∷ t) = λ h. absurd (cc h)
text_eq→eq (c ∷ s) [] = λ h. absurd (cc h)
text_eq→eq (c ∷ s) (d ∷ t) = elim (Bool-cases (c == d)) [
  | inl e ↦ rw (e, text_eq) (λ h. ap₂ ◌∷◌ ((==_iff c d).0 e) (text_eq→eq s t h))
  | inr e ↦ rw (e, text_eq) (λ h. absurd (cc h))
]

parts_eq→eq : (ps qs : Parts) → parts_eq ps qs ≡ true → ps ≡ qs
parts_eq→eq [] [] = λ h. refl
parts_eq→eq [] (q ∷ qs) = λ h. absurd (cc h)
parts_eq→eq (p ∷ ps) [] = λ h. absurd (cc h)
parts_eq→eq (p ∷ ps) (q ∷ qs) = elim (Bool-cases (text_eq p q)) [
  | inl e ↦ rw (e, parts_eq) (λ h. ap₂ ◌∷◌ (text_eq→eq p q e) (parts_eq→eq ps qs h))
  | inr e ↦ rw (e, parts_eq) (λ h. absurd (cc h))
]

-- The destination, or something below it.
abbrev pub Within : FilePath → FilePath → Type 0
Within dst path = (below : Parts) × (path.parts ≡ below ++ dst.parts)

pub is_within-below :
    (dst ps : Parts) → is_within dst ps ≡ true → (below : Parts) × (ps ≡ below ++ dst)
is_within-below dst [] = λ h. ([], parts_eq→eq [] dst h)
is_within-below dst (p ∷ ps) = elim (Bool-cases (parts_eq (p ∷ ps) dst)) [
  | inl e ↦ λ h. ([], parts_eq→eq (p ∷ ps) dst e)
  | inr e ↦
      rw (e, is_within)
        (λ h. let (below, q) = is_within-below dst ps h in (p ∷ below, ap (λ l. p ∷ l) q))
]
