-- ===== src/Sandbox/Artifact.antt =====
-- services/sandbox-runner/internal/sandbox/artifact.go: `resolveLocalArtifact`, and the name and the
-- address that services/submission-api/internal/store/artifact_store.go gives an artifact.
use quant_dominater.Base.{
  ℕ, Bool, true, ◌||◌, ◌&&◌, Option, none, some, [], ◌∷◌, ◌++◌, map, ◌==◌, leb, if◌then◌else◌,
}
use quant_dominater.Orchestrator.Store.{message, Result, ok, err}
use quant_dominater.Sandbox.Paths.{
  Text, codes, slash, text_eq, is_up, is_abs, FilePath, clean, join, join_cleaned, outermost, base,
  strip_prefix,
}

-- A text that is returned as it is, or a path that has been put together.
pub data Location : Type 0 where
  given : Text → Location
  inside : FilePath → Location

abbrev pub starts_up : Option Text → Bool
starts_up none = true
starts_up (some p) = is_up p

-- `cleanRel` is "." or "..", absolute, or begins with "../".
abbrev pub is_outside : FilePath → Bool
is_outside path = if path.rooted then true else starts_up (outermost path.parts)

abbrev pub submission_prefix : Text
submission_prefix = codes "local://submissions/"

abbrev pub resolve_submission : FilePath → FilePath → Result Location
resolve_submission root rel =
    if is_outside rel
    then err (message "invalid artifact uri")
    else ok (inside (join_cleaned root rel))

-- `resolveLocalArtifact`, with what `submissionArtifactRoot` returns
unfoldable pub resolve_local_artifact : FilePath → FilePath → Text → Result Location
resolve_local_artifact submissions repo [] = err (message "artifact_uri is required")
resolve_local_artifact submissions repo (c ∷ s) = elim (strip_prefix submission_prefix (c ∷ s)) [
  | some rel ↦ resolve_submission submissions (clean rel)
  | none ↦ if is_abs (c ∷ s) then ok (given (c ∷ s)) else ok (inside (join repo (c ∷ s)))
]

abbrev pub between : ℕ → ℕ → ℕ → Bool
between a b c = leb a c && leb c b

-- The function of `strings.Map` in `cleanFilename`.
abbrev pub clean_rune : ℕ → ℕ
clean_rune c =
    if between 97 122 c || between 65 90 c || between 48 57 c || c == 46 || c == 45 || c == 95
    then c
    else 95

abbrev pub underscore_slash : ℕ → ℕ
underscore_slash c = if c == slash then 95 else c

-- `cleanFilename`, with `strings.TrimSpace`
unfoldable pub clean_filename : (Text → Text) → Text → Text
clean_filename trim_space name = map clean_rune (map underscore_slash (trim_space (base name)))

-- The name that `LocalArtifactStore.Save` stores a file under, and the URI that it returns.
abbrev pub name_or : Text → Text → Text
name_or artifact_id filename = if text_eq filename [] then artifact_id ++ codes ".bin" else filename

abbrev pub stored_name : (Text → Text) → Text → Text → Text
stored_name trim_space artifact_id name =
    artifact_id ++ 95 ∷ name_or artifact_id (clean_filename trim_space name)

abbrev pub artifact_uri : (Text → Text) → Text → Text → Text → Text
artifact_uri trim_space submission_id artifact_id name =
    submission_prefix ++ submission_id ++ slash ∷ stored_name trim_space artifact_id name
