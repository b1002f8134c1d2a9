-- ===== src/Sandbox/Joined.antt =====
-- services/sandbox-runner/internal/sandbox/artifact.go: `validateUntrustedDockerfile` and the
-- instructions that Docker reads.
use quant_dominater.Base.{Bool, true, false, ◌&&◌, List, [], ◌∷◌, ◌++◌, if◌then◌else◌}
use quant_dominater.Sandbox.Paths.{Text}
use quant_dominater.Sandbox.Dockerfile.{
  is_space, is_empty, is_comment, ends_backslash, but_last, trimmed,
}

abbrev prepend : Text → List Text → List Text
prepend s [] = s ∷ []
prepend s (t ∷ ts) = (s ++ t) ∷ ts

-- The instructions as Docker puts them together: a line that is continued goes on with the next one,
-- with nothing in between; comments, and blank lines behind a continued one, are left out. The first
-- argument says whether the line before is continued.
abbrev pub joined : Bool → List Text → List Text
joined continued [] = [] ∷ []
joined continued (raw ∷ rest) =
    let s = trimmed raw in
    let same = joined continued rest in
    let on = joined true rest in
    let off = joined false rest in
    if is_comment s
    then same
    else if ends_backslash s
    then prepend (but_last s) on
    else if continued && is_empty s
    then same
    else raw ∷ off

abbrev ends_space : Text → Bool
ends_space [] = true
ends_space (c ∷ []) = is_space c
ends_space (c ∷ d ∷ s) = ends_space (d ∷ s)

-- Each continued line has a space before its backslash, and no blank line behind it.
abbrev pub is_apart : Bool → List Text → Bool
is_apart continued [] = true
is_apart continued (raw ∷ rest) =
    let s = trimmed raw in
    let same = is_apart continued rest in
    let on = is_apart true rest in
    let off = is_apart false rest in
    if is_comment s
    then same
    else if ends_backslash s
    then ends_space (but_last s) && on
    else if continued && is_empty s
    then false
    else off
