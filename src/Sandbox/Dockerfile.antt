-- ===== src/Sandbox/Dockerfile.antt =====
-- services/sandbox-runner/internal/sandbox/artifact.go: `validateUntrustedDockerfile`.
use quant_dominater.Base.{
  ℕ, Bool, true, false, ◌||◌, ◌&&◌, Option, none, some, List, [], ◌∷◌, ◌++◌, ◌+◌, ◌==◌, leb,
  if◌then◌else◌,
}
use quant_dominater.Sandbox.Paths.{Text, codes, text_eq, add_to_first, strip_prefix}

-- `unicode.IsSpace`
abbrev pub is_space : ℕ → Bool
is_space c =
    (leb 9 c && leb c 13)
    || c == 32
    || c == 0x85
    || c == 0xa0
    || c == 0x1680
    || (leb 0x2000 c && leb c 0x200a)
    || c == 0x2028
    || c == 0x2029
    || c == 0x202f
    || c == 0x205f
    || c == 0x3000

abbrev pub is_return : ℕ → Bool
is_return c = c == 13

abbrev pub is_empty : Text → Bool
is_empty [] = true
is_empty (c ∷ s) = false

-- `strings.Split` at line feeds
abbrev pub lines : Text → List Text
lines [] = [] ∷ []
lines (c ∷ s) = let rest = lines s in if c == 10 then [] ∷ rest else add_to_first c rest

-- `strings.TrimRight`, of the characters that a test tells
abbrev pub trim_right : (ℕ → Bool) → Text → Text
trim_right p [] = []
trim_right p (c ∷ s) =
    let rest = trim_right p s in if is_empty rest then (if p c then [] else c ∷ []) else c ∷ rest

abbrev pub trim_left : Text → Text
trim_left [] = []
trim_left (c ∷ s) = let rest = trim_left s in if is_space c then rest else c ∷ s

-- `strings.TrimSpace`
abbrev pub trim_space : Text → Text
trim_space s = trim_left (trim_right is_space s)

abbrev pub starts_space : Text → Bool
starts_space [] = true
starts_space (c ∷ s) = is_space c

-- `strings.Fields`
abbrev pub words : Text → List Text
words [] = []
words (c ∷ s) =
    let rest = words s in
    if is_space c then rest else if starts_space s then (c ∷ []) ∷ rest else add_to_first c rest

abbrev pub is_comment : Text → Bool
is_comment [] = false
is_comment (c ∷ s) = c == 35

-- `strings.HasSuffix` and `strings.TrimSuffix` of a backslash
abbrev pub ends_backslash : Text → Bool
ends_backslash [] = false
ends_backslash (c ∷ []) = c == 92
ends_backslash (c ∷ d ∷ s) = ends_backslash (d ∷ s)

abbrev pub but_last : Text → Text
but_last [] = []
but_last (c ∷ []) = []
but_last (c ∷ d ∷ s) = c ∷ but_last (d ∷ s)

abbrev pub trimmed : Text → Text
trimmed raw = trim_space (trim_right is_return raw)

-- What the builder `logical` holds after the first loop
abbrev pub logical : List Text → Text
logical [] = []
logical (raw ∷ rest) =
    let s = trimmed raw in
    let following = logical rest in
    if is_comment s
    then following
    else if ends_backslash s
    then but_last s ++ (32 ∷ following)
    else s ++ (10 ∷ following)

-- `strings.ToLower`, of the letters that the texts it is compared with have
abbrev pub to_lower : Text → Text
to_lower [] = []
to_lower (c ∷ s) = (if leb 65 c && leb c 90 then c + 32 else c) ∷ to_lower s

abbrev pub has_prefix : Text → Text → Bool
has_prefix p s = elim (strip_prefix p s) [ none ↦ false | some rest ↦ true ]

abbrev pub is_remote : Text → Bool
is_remote arg =
    has_prefix (codes "http://") (to_lower arg) || has_prefix (codes "https://") (to_lower arg)

abbrev pub first_remote : List Text → Option Text
first_remote [] = none
first_remote (arg ∷ args) = let rest = first_remote args in if is_remote arg then some arg else rest

-- `len(fields) < 2 || !strings.EqualFold(fields[0], "ADD")`, and the loop over the arguments
abbrev pub remote_add : List Text → Option Text
remote_add [] = none
remote_add (word ∷ args) = if text_eq (to_lower word) (codes "add") then first_remote args else none

abbrev pub check_line : Text → Option Text
check_line raw =
    let line = trim_space raw in if is_empty line then none else remote_add (words line)

abbrev pub or_next : Option Text → Option Text → Option Text
or_next none next = next
or_next (some arg) next = some arg

abbrev pub check_lines : List Text → Option Text
check_lines [] = none
check_lines (l ∷ ls) = or_next (check_line l) (check_lines ls)

-- `validateUntrustedDockerfile`, of a file that can be read: the argument that it refuses
unfoldable pub validate_untrusted_dockerfile : Text → Option Text
validate_untrusted_dockerfile text = check_lines (lines (logical (lines text)))
