-- ===== src/Sandbox/Prepared.antt =====
-- services/sandbox-runner/internal/sandbox/artifact.go: which Dockerfile `prepareBuildContext` leaves.
use quant_dominater.Base.{
  Bool, true, false, Option, none, some, [], ◌≡◌, ◌⊎◌, inl, inr, refl, if◌then◌else◌,
}
use quant_dominater.Orchestrator.Store.{Error, message, Result, ok, err}
use quant_dominater.Sandbox.Paths.{Text, codes, text_eq, strip_prefix}
use quant_dominater.Sandbox.Dockerfile.{trim_space, validate_untrusted_dockerfile}
use quant_dominater.Sandbox.Context.{
  Artifact, BuildDir, FileSystem, go_dockerfile, rust_dockerfile, binary_dockerfile, default_of,
  write_default, checked, with_dockerfile, needs_go_mod, with_go_mod, prepare_filled, prepare_made,
  prepare_build_context,
}

-- The contestant's Dockerfile stands and passed the screening, or there was none and a default one
-- stands, which would pass it.
abbrev Screened : (Text → Text) → Text → Option Text → BuildDir → Bool → Type 0
Screened lower language before dir own =
    (content : Text) × (dir.dockerfile ≡ some content)
    × (validate_untrusted_dockerfile content ≡ none)
    × (((own ≡ true) × (before ≡ some content))
        ⊎ ((own ≡ false)
            × (before ≡ none)
            × (default_of lower (lower (trim_space language)) ≡ some content)))

abbrev Failed : Option Error → Type 0
Failed e = (reason : Error) × (e ≡ some reason)

abbrev pub Prepares :
    (Text → Text) → FileSystem → Text → Option BuildDir × Bool × Option Error → Type 0
Prepares lower fs language out =
    Failed out.2
    ⊎ ((out.2 ≡ none)
        × ((before : BuildDir) × (dir : BuildDir) × (fs.filled ≡ ok before)
            × (out.0 ≡ some dir)
            × Screened lower language before.dockerfile dir out.1))

go_passes : validate_untrusted_dockerfile go_dockerfile ≡ none
unfolding validate_untrusted_dockerfile strip_prefix
go_passes = refl

rust_passes : validate_untrusted_dockerfile rust_dockerfile ≡ none
unfolding validate_untrusted_dockerfile strip_prefix
rust_passes = refl

binary_passes : validate_untrusted_dockerfile binary_dockerfile ≡ none
unfolding validate_untrusted_dockerfile strip_prefix
binary_passes = refl

abbrev Passes : Option Text → Type 0
Passes none = Unit {0}
Passes (some content) = validate_untrusted_dockerfile content ≡ none

if_Passes : (b : Bool) (x y : Option Text) → Passes x → Passes y → Passes (if b then x else y)
if_Passes true x y p q = p
if_Passes false x y p q = q

module _ (lower : Text → Text) where
  default_of-Passes : (l : Text) → Passes (default_of lower l)
  default_of-Passes l = if_Passes (text_eq l []) (some go_dockerfile) _ go_passes (
      if_Passes (text_eq l (codes "go")) (some go_dockerfile) _ go_passes (
        if_Passes (text_eq l (codes "rust")) (some rust_dockerfile) _ rust_passes (
          if_Passes (text_eq l (codes "binary")) (some binary_dockerfile) _ binary_passes
            (if_Passes (text_eq l (codes "bin")) (some binary_dockerfile) none binary_passes tt))))

  default_Screened :
      (written : Option Error) (language : Text) (d : Option Text) (dir : BuildDir)
      → Passes d
      → default_of lower (lower (trim_space language)) ≡ d
      → let (dir', e) = write_default lower written d dir in
        Failed e ⊎ ((e ≡ none) × Screened lower language none dir' false)
  default_Screened written language none dir p h =
      inl (message "no default Dockerfile for language", refl)
  default_Screened none language (some content) dir p h =
      inr (refl, (content, refl, p, inr (refl, refl, h)))
  default_Screened (some e) language (some content) dir p h = inl (e, refl)

  own_Screened :
      (read : Option Error) (language content : Text) (arg : Option Text) (dir : BuildDir)
      → dir.dockerfile ≡ some content
      → validate_untrusted_dockerfile content ≡ arg
      → let e = checked lower read arg in
        Failed e ⊎ ((e ≡ none) × Screened lower language (some content) dir true)
  own_Screened (some e) language content arg dir h v = inl (e, refl)
  own_Screened none language content none dir h v = inr (refl, (content, h, v, inl (refl, refl)))
  own_Screened none language content (some arg) dir h v = inl (_, refl)

  with_dockerfile-Screened :
      (fs : FileSystem) (language : Text) (before : Option Text) (dir : BuildDir)
      → dir.dockerfile ≡ before
      → let (dir', own, e) = with_dockerfile lower fs language before dir in
        Failed e ⊎ ((e ≡ none) × Screened lower language before dir' own)
  with_dockerfile-Screened fs language none dir h =
      default_Screened fs.dockerfile_written language
        (default_of lower (lower (trim_space language))) dir
        (default_of-Passes (lower (trim_space language))) refl
  with_dockerfile-Screened fs language (some content) dir h =
      own_Screened fs.dockerfile_read language content (validate_untrusted_dockerfile content) dir h
        refl

  with_go_mod-Screened :
      (fs : FileSystem) (language : Text) (needed : Bool) (written : Option Error) (dir : BuildDir)
      → let (dir', own, e) = with_go_mod lower fs language needed written dir in
        Failed e ⊎ ((e ≡ none) × Screened lower language dir.dockerfile dir' own)
  with_go_mod-Screened fs language false written dir =
      with_dockerfile-Screened fs language dir.dockerfile dir refl
  with_go_mod-Screened fs language true (some e) dir = inl (e, refl)
  with_go_mod-Screened fs language true none dir =
      with_dockerfile-Screened fs language dir.dockerfile (record dir { has_go_mod = true }) refl

  filled_Prepares :
      (fs : FileSystem) (language : Text) (artifact : Artifact) (filled : Result BuildDir)
      → fs.filled ≡ filled
      → Prepares lower fs language (prepare_filled lower fs language artifact filled)
  filled_Prepares fs language artifact (err e) h = inl (e, refl)
  filled_Prepares fs language artifact (ok dir) h =
      let out =
        with_go_mod lower fs language (needs_go_mod lower artifact language dir) fs.go_mod_written
          dir in
      elim (with_go_mod-Screened fs language (needs_go_mod lower artifact language dir)
        fs.go_mod_written dir) [ inl f ↦ inl f | inr (e, s) ↦ inr (e, (dir, out.0, h, refl, s)) ]

  made_Prepares :
      (fs : FileSystem) (language : Text) (stat : Result Artifact) (made : Option Error)
      → Prepares lower fs language (prepare_made lower fs language stat made)
  made_Prepares fs language (err e) made = inl (e, refl)
  made_Prepares fs language (ok artifact) (some e) = inl (e, refl)
  made_Prepares fs language (ok artifact) none = filled_Prepares fs language artifact fs.filled refl

-- Whatever the artifact is, the language is called, and the file system answers: prepareBuildContext
-- either reports an error, or leaves a directory with a Dockerfile that passes the screening. That is
-- the contestant's, unchanged and flagged as such, where the artifact has one, and otherwise the
-- default one of the language.
pub prepare_build_context-Prepares :
    (lower : Text → Text) (fs : FileSystem) (language : Text)
    → Prepares lower fs language (prepare_build_context lower fs language)
unfolding prepare_build_context
prepare_build_context-Prepares lower fs language = made_Prepares lower fs language fs.stat fs.made
