-- ===== src/Sandbox/Paths.antt =====
-- File paths as Go's filepath package reads them, on texts as lists of code points: `Clean`, `Join`
-- and `Base` for the separator '/'.
use Prim.Native.Char.{code}
use quant_dominater.Base.{
  ℕ, String, Bool, true, false, Option, none, some, List, [], ◌∷◌, ◌==◌, if◌then◌else◌,
}

abbrev pub Text : Type 0
Text = List ℕ

-- The code points of a literal.
abbrev pub codes : String → Text
codes String.[] = []
codes (String.◌∷◌ c s) = code c ∷ codes s

abbrev pub slash : ℕ
slash = 47

abbrev pub text_eq : Text → Text → Bool
text_eq [] [] = true
text_eq [] (d ∷ t) = false
text_eq (c ∷ s) [] = false
text_eq (c ∷ s) (d ∷ t) = if c == d then text_eq s t else false

abbrev pub add_to_first : ℕ → List Text → List Text
add_to_first c [] = (c ∷ []) ∷ []
add_to_first c (p ∷ ps) = (c ∷ p) ∷ ps

-- The parts between the separators.
unfoldable pub split : Text → List Text
split [] = [] ∷ []
split (c ∷ s) = let rest = split s in if c == slash then [] ∷ rest else add_to_first c rest

-- "" or "."
abbrev pub is_blank : Text → Bool
is_blank p = if text_eq p [] then true else text_eq p (codes ".")

abbrev pub is_up : Text → Bool
is_up p = text_eq p (codes "..")

-- The parts of a cleaned path, innermost first.
abbrev pub Parts : Type 0
Parts = List Text

-- ".." takes the innermost part away; at the outside it stays, or is dropped where the path is rooted.
abbrev pub go_up : Bool → Parts → Parts
go_up rooted [] = if rooted then [] else codes ".." ∷ []
go_up rooted (p ∷ ps) = if is_up p then codes ".." ∷ p ∷ ps else ps

abbrev pub enter : Bool → Parts → Text → Parts
enter rooted parts p =
    if is_blank p then parts else if is_up p then go_up rooted parts else p ∷ parts

unfoldable pub walk : Bool → Parts → List Text → Parts
walk rooted parts [] = parts
walk rooted parts (p ∷ ps) = walk rooted (enter rooted parts p) ps

-- `filepath.IsAbs`
abbrev pub is_abs : Text → Bool
is_abs [] = false
is_abs (c ∷ s) = c == slash

pub record FilePath : Type 0 where
  pub rooted : Bool
  pub parts : Parts

-- `filepath.Clean`; "." has no parts.
abbrev pub clean : Text → FilePath
clean s = record { rooted = is_abs s; parts = walk (is_abs s) [] (split s) }

-- `filepath.Join` of a cleaned path and a text
abbrev pub join : FilePath → Text → FilePath
join root s = record { rooted = root.rooted; parts = walk root.rooted root.parts (split s) }

-- `filepath.Join` of two cleaned paths: the parts of the second one, the outermost first.
unfoldable pub place : Bool → Parts → Parts → Parts
place rooted [] parts = parts
place rooted (p ∷ ps) parts = enter rooted (place rooted ps parts) p

abbrev pub join_cleaned : FilePath → FilePath → FilePath
join_cleaned root path = record {
  rooted = root.rooted;
  parts = place root.rooted path.parts root.parts;
}

-- The first part of a path as it is written.
abbrev pub outermost : Parts → Option Text
outermost [] = none
outermost (p ∷ []) = some p
outermost (p ∷ q ∷ ps) = outermost (q ∷ ps)

abbrev pub last_part : Text → List Text → Text
last_part best [] = best
last_part best (p ∷ ps) = last_part (if text_eq p [] then best else p) ps

-- `filepath.Base`: the last part that is not empty.
abbrev pub base : Text → Text
base [] = codes "."
base (c ∷ s) = last_part (codes "/") (split (c ∷ s))

-- `strings.HasPrefix` and `strings.TrimPrefix`
unfoldable pub strip_prefix : Text → Text → Option Text
strip_prefix [] s = some s
strip_prefix (c ∷ p) [] = none
strip_prefix (c ∷ p) (d ∷ s) = let rest = strip_prefix p s in if c == d then rest else none
