-- ===== src/Sandbox/Contained.antt =====
-- What `resolveLocalArtifact` of services/sandbox-runner/internal/sandbox/artifact.go lets through.
use quant_dominater.Base.{
  Bool, true, false, some, List, [], ◌∷◌, ◌++◌, ◌≡◌, ◌≢◌, ◌⊎◌, refl, sym, ap, ◌∙◌, subst, inl, inr,
  All, Bool-cases, if◌then◌else◌,
}
use quant_dominater.Orchestrator.Store.{Result, ok, err}
use quant_dominater.Sandbox.Paths.{
  Text, split, is_blank, is_up, Parts, go_up, enter, walk, is_abs, FilePath, clean, place,
  outermost, strip_prefix,
}
use quant_dominater.Sandbox.Artifact.{
  Location, given, inside, starts_up, is_outside, submission_prefix, resolve_submission,
  resolve_local_artifact,
}

-- A part that names a file or a directory below the one it stands in.
pub record Plain (p : Text) : Type 0 where
  pub not_blank : is_blank p ≡ false
  pub not_up : is_up p ≡ false

-- Plain parts, and outside of them any number of "..".
abbrev Cleaned : Parts → Type 0
Cleaned [] = Unit
Cleaned (p ∷ ps) = (Plain p × Cleaned ps) ⊎ ((is_up p ≡ true) × All (λ q. is_up q ≡ true) ps)

ups-Cleaned : (ps : Parts) → All (λ q. is_up q ≡ true) ps → Cleaned ps
ups-Cleaned [] h = tt
ups-Cleaned (p ∷ ps) h = inr h

go_up-Cleaned : (rooted : Bool) (ps : Parts) → Cleaned ps → Cleaned (go_up rooted ps)
go_up-Cleaned true [] c = tt
go_up-Cleaned false [] c = inr (refl, tt)
go_up-Cleaned rooted (p ∷ ps) (inl (plain, c)) = rw (plain.not_up, go_up) c
go_up-Cleaned rooted (p ∷ ps) (inr (up, ups)) = rw (up, go_up) (inr (refl, (up, ups)))

enter-Cleaned : (rooted : Bool) (ps : Parts) (p : Text) → Cleaned ps → Cleaned (enter rooted ps p)
enter-Cleaned rooted ps p c = elim (Bool-cases (is_blank p)) [
  | inl b ↦ rw (b, enter) c
  | inr b ↦ elim (Bool-cases (is_up p)) [
    | inl u ↦ rw (b, enter) (rw (u, enter) (go_up-Cleaned rooted ps c))
    | inr u ↦ rw (b, enter) (rw (u, enter) (inl (record { not_blank = b; not_up = u }, c)))
  ]
]

walk-Cleaned :
    (rooted : Bool) (ps : Parts) (list : List Text) → Cleaned ps → Cleaned (walk rooted ps list)
unfolding walk
walk-Cleaned rooted ps [] c = c
walk-Cleaned rooted ps (p ∷ list) c =
    walk-Cleaned rooted (enter rooted ps p) list (enter-Cleaned rooted ps p c)

-- A cleaned path that does not begin with ".." has no ".." at all.
Cleaned-Plain : (ps : Parts) → Cleaned ps → starts_up (outermost ps) ≡ false → All Plain ps
Cleaned-Plain [] c h = tt
Cleaned-Plain (p ∷ []) (inl (plain, c)) h = (plain, tt)
Cleaned-Plain (p ∷ []) (inr (up, ups)) h = absurd (cc (up, h))
Cleaned-Plain (p ∷ q ∷ ps) (inl (plain, c)) h = (plain, Cleaned-Plain (q ∷ ps) c h)
Cleaned-Plain (p ∷ q ∷ ps) (inr (up, ups)) h = absurd (all_up (q ∷ ps) ups h)
  where
    all_up : (qs : Parts) → All (λ r. is_up r ≡ true) qs → starts_up (outermost qs) ≡ false → ⊥
    all_up [] a e = cc e
    all_up (r ∷ []) a e = cc (a.0, e)
    all_up (r ∷ s ∷ rs) a e = all_up (s ∷ rs) a.1 e

pub enter-Plain : (rooted : Bool) (ps : Parts) (p : Text) → Plain p → enter rooted ps p ≡ p ∷ ps
enter-Plain rooted ps p h = rw (h.not_blank, enter) (rw (h.not_up, enter) refl)

pub place-Plain :
    (rooted : Bool) (ps root : Parts) → All Plain ps → place rooted ps root ≡ ps ++ root
unfolding place
place-Plain rooted [] root h = refl
place-Plain rooted (p ∷ ps) root h =
    enter-Plain rooted _ p h.0 ∙ ap (λ l. p ∷ l) (place-Plain rooted ps root h.1)

-- A path strictly below a root: at least one part more, none of them "", "." or "..".
abbrev pub Below : FilePath → FilePath → Type 0
Below root path =
    (below : Parts) × (path.parts ≡ below ++ root.parts)
    × All Plain below
    × (below ≢ [])
    × (path.rooted ≡ root.rooted)

not_outside :
    (path : FilePath)
    → is_outside path ≡ false
    → (path.rooted ≡ false) × (starts_up (outermost path.parts) ≡ false)
not_outside path h = elim (Bool-cases path.rooted) [
  | inl r ↦
      absurd
        (true≢false (sym (ap (λ b. if b then true else starts_up (outermost path.parts)) r) ∙ h))
  | inr r ↦ (r, sym (ap (λ b. if b then true else starts_up (outermost path.parts)) r) ∙ h)
]
  where
    true≢false : true ≢ false
    true≢false e = cc e

-- What `resolveLocalArtifact` returns for the address of a submission.
abbrev pub Resolves : FilePath → FilePath → Result Location → Type 0
Resolves root rel (err e) = is_outside rel ≡ true
Resolves root rel (ok (given s)) = ⊥
Resolves root rel (ok (inside path)) = Below root path

none_left : {ps : Parts} → ps ≡ [] → starts_up (outermost ps) ≡ false → ⊥
none_left e = rw e (λ h. cc h)

resolve_submission-Resolves :
    (root : FilePath) (s : Text) → Resolves root (clean s) (resolve_submission root (clean s))
resolve_submission-Resolves root s = elim (Bool-cases (is_outside (clean s))) [
  | inl e ↦ rw (e, resolve_submission) e
  | inr e ↦
      rw (e, resolve_submission)
        (let (_, inner) = not_outside (clean s) e in
          let plain : All Plain (clean s).parts =
            Cleaned-Plain _ (walk-Cleaned (is_abs s) [] (split s) tt) inner in
          (
            (clean s).parts,
            place-Plain root.rooted _ root.parts plain,
            plain,
            λ nothing. absurd (none_left nothing inner),
            refl,
          ))
]

pub resolve_prefixed :
    (root repo : FilePath) (uri rel : Text)
    → strip_prefix submission_prefix uri ≡ some rel
    → resolve_local_artifact root repo uri ≡ resolve_submission root (clean rel)
unfolding resolve_local_artifact strip_prefix
resolve_prefixed root repo [] rel h = absurd (cc h)
resolve_prefixed root repo (c ∷ s) rel h = rw (h, resolve_local_artifact) refl

-- The address of a submission resolves to a path strictly below the root of the submissions, or is
-- refused because the path in it is absolute, empty, or goes up out of its directory.
pub resolve_local_artifact-Resolves :
    (root repo : FilePath) (uri rel : Text)
    → strip_prefix submission_prefix uri ≡ some rel
    → Resolves root (clean rel) (resolve_local_artifact root repo uri)
resolve_local_artifact-Resolves root repo uri rel h =
    subst (Resolves root (clean rel)) (sym (resolve_prefixed root repo uri rel h))
      (resolve_submission-Resolves root rel)
