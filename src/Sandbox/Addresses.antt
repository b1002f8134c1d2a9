-- ===== src/Sandbox/Addresses.antt =====
-- The address of an artifact on its way from services/submission-api/internal/store/artifact_store.go
-- to services/sandbox-runner/internal/sandbox/artifact.go.
use quant_dominater.Base.{
  ℕ, true, false, some, [], ◌∷◌, ◌++◌, map, ◌≡◌, refl, ap, ◌∙◌, inl, inr, All, All-append, ◌==◌,
  ==_iff, Bool-cases, arith,
}
use quant_dominater.Orchestrator.Store.{ok}
use quant_dominater.Sandbox.Paths.{
  Text, codes, slash, text_eq, split, enter, walk, is_abs, FilePath, clean, strip_prefix,
}
use quant_dominater.Sandbox.Artifact.{
  inside, submission_prefix, resolve_submission, resolve_local_artifact, clean_rune, clean_filename,
  name_or, stored_name, artifact_uri,
}
use quant_dominater.Sandbox.Contained.{Plain, enter-Plain, place-Plain, resolve_prefixed}

-- No separator.
abbrev pub Lacks : Text → Type 0
Lacks s = All (λ (c : ℕ). (c == slash) ≡ false) s

eq_self : (c : ℕ) → (c == c) ≡ true
eq_self c = (==_iff c c).1 refl

strip_prefix-append : (p s : Text) → strip_prefix p (p ++ s) ≡ some s
unfolding strip_prefix
strip_prefix-append [] s = refl
strip_prefix-append (c ∷ p) s = rw (eq_self c, strip_prefix) (strip_prefix-append p s)

split-Lacks : (s : Text) → Lacks s → split s ≡ s ∷ []
unfolding split
split-Lacks [] h = refl
split-Lacks (c ∷ s) h = rw (h.0, split) (rw (split-Lacks s h.1) refl)

split-append : (s t : Text) → Lacks s → split (s ++ slash ∷ t) ≡ s ∷ split t
unfolding split
split-append [] t h = refl
split-append (c ∷ s) t h = rw (h.0, split) (rw (split-append s t h.1) refl)

clean_rune-Lacks : (c : ℕ) → (clean_rune c == slash) ≡ false
clean_rune-Lacks c = ground arith

map-clean_rune-Lacks : (s : Text) → Lacks (map clean_rune s)
map-clean_rune-Lacks [] = tt
map-clean_rune-Lacks (c ∷ s) = (clean_rune-Lacks c, map-clean_rune-Lacks s)

clean_filename-Lacks :
    (trim_space : Text → Text) (name : Text) → Lacks (clean_filename trim_space name)
unfolding clean_filename
clean_filename-Lacks trim_space name = map-clean_rune-Lacks _

name_or-Lacks : (art filename : Text) → Lacks art → Lacks filename → Lacks (name_or art filename)
name_or-Lacks art filename h k = elim (Bool-cases (text_eq filename [])) [
  | inl e ↦
      rw (e, name_or)
        (All-append (λ c. (c == slash) ≡ false) art (codes ".bin") h
          (refl, (refl, (refl, (refl, tt)))))
  | inr e ↦ rw (e, name_or) k
]

stored_name-Lacks :
    (trim_space : Text → Text) (art name : Text)
    → Lacks art
    → Lacks (stored_name trim_space art name)
stored_name-Lacks trim_space art name h =
    All-append (λ c. (c == slash) ≡ false) art (95 ∷ name_or art (clean_filename trim_space name)) h
      (refl, name_or-Lacks art _ h (clean_filename-Lacks trim_space name))

-- A name with an underscore in it is none of "", "." and "..".
module _ (rest : Text) where
  not_empty : (s : Text) → text_eq (s ++ 95 ∷ rest) [] ≡ false
  not_empty [] = refl
  not_empty (c ∷ s) = refl

  not_dot : (s : Text) → text_eq (s ++ 95 ∷ rest) (codes ".") ≡ false
  not_dot [] = refl
  not_dot (c ∷ s) = elim (Bool-cases (c == 46)) [
    | inl e ↦ rw (e, text_eq) (not_empty s)
    | inr e ↦ rw (e, text_eq) refl
  ]

  not_dots : (s : Text) → text_eq (s ++ 95 ∷ rest) (codes "..") ≡ false
  not_dots [] = refl
  not_dots (c ∷ s) = elim (Bool-cases (c == 46)) [
    | inl e ↦ rw (e, text_eq) (not_dot s)
    | inr e ↦ rw (e, text_eq) refl
  ]

  underscored-Plain : (s : Text) → Plain (s ++ 95 ∷ rest)
  underscored-Plain s = record { not_blank = rw (not_empty s) (not_dot s); not_up = not_dots s }

-- What the parts of an address are cleaned to.
clean_address :
    (id stored : Text)
    → Lacks id
    → Plain id
    → Lacks stored
    → Plain stored
    → clean (id ++ slash ∷ stored) ≡ record { rooted = false; parts = stored ∷ id ∷ [] }
unfolding walk
clean_address [] stored h p k q = absurd (cc p.not_blank)
clean_address (c ∷ s) stored h p k q =
    rw (h.0, is_abs)
      (ap (λ l. record { rooted = false; parts = walk false [] l })
          (split-append (c ∷ s) stored h ∙ ap (λ l. (c ∷ s) ∷ l) (split-Lacks stored k))
        ∙ ap (λ l. record { rooted = false; parts = l })
            (ap (λ l. enter false l stored) (enter-Plain false [] (c ∷ s) p)
              ∙ enter-Plain false ((c ∷ s) ∷ []) stored q))

-- Where neither the id of the submission nor that of the artifact has a '/', and the former is a
-- proper name: whatever the name of the uploaded file, the address that the submission service gives
-- it resolves in the runner to the file that the service wrote, below the root of the submissions.
pub resolve_local_artifact-artifact_uri :
    (root repo : FilePath) (trim_space : Text → Text) (id art name : Text)
    → Lacks id
    → Plain id
    → Lacks art
    → resolve_local_artifact root repo (artifact_uri trim_space id art name)
      ≡ ok (
          inside (record {
            rooted = root.rooted;
            parts = stored_name trim_space art name ∷ id ∷ root.parts;
          }))
resolve_local_artifact-artifact_uri root repo trim_space id art name h p k =
    let stored : Text = stored_name trim_space art name in
    let q : Plain stored = underscored-Plain (name_or art (clean_filename trim_space name)) art in
    resolve_prefixed root repo (artifact_uri trim_space id art name) (id ++ slash ∷ stored)
      (strip_prefix-append submission_prefix (id ++ slash ∷ stored))
    ∙ ap (resolve_submission root)
        (clean_address id stored h p (stored_name-Lacks trim_space art name k) q)
    ∙ placed stored q
  where
    placed :
        (stored : Text)
        → Plain stored
        → resolve_submission root (record { rooted = false; parts = stored ∷ id ∷ [] })
          ≡ ok (inside (record { rooted = root.rooted; parts = stored ∷ id ∷ root.parts }))
    placed stored q =
        rw (p.not_up, resolve_submission)
          (ap (λ l. ok (inside (record { rooted = root.rooted; parts = l })))
            (place-Plain root.rooted (stored ∷ id ∷ []) root.parts (q, (p, tt))))
