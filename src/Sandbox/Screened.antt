-- ===== src/Sandbox/Screened.antt =====
-- services/sandbox-runner/internal/sandbox/artifact.go: `validateUntrustedDockerfile` decides over the
-- instructions of the file.
use quant_dominater.Base.{
  ℕ, Bool, false, List, [], ◌∷◌, ◌++◌, ◌==◌, ◌≡◌, refl, ap, ◌∙◌, inl, inr, Bool-cases, All, map,
}
use quant_dominater.Sandbox.Paths.{Text, add_to_first}
use quant_dominater.Sandbox.Dockerfile.{
  is_space, is_return, is_empty, lines, trim_right, trim_left, words, is_comment, ends_backslash,
  but_last, trimmed, logical, check_lines, validate_untrusted_dockerfile,
}
use quant_dominater.Sandbox.Instructions.{
  before_first, instructions, first_refused, words-append, check_line-words,
}

abbrev NoFeed : Text → Type 0
NoFeed = All (λ (c : ℕ). (c == 10) ≡ false)

add_to_first-NoFeed :
    (c : ℕ) (ls : List Text) → (c == 10) ≡ false → All NoFeed ls → All NoFeed (add_to_first c ls)
add_to_first-NoFeed c [] h k = ((h, tt), tt)
add_to_first-NoFeed c (l ∷ ls) h k = ((h, k.0), k.1)

lines-NoFeed : (s : Text) → All NoFeed (lines s)
lines-NoFeed [] = (tt, tt)
lines-NoFeed (c ∷ s) = elim (Bool-cases (c == 10)) [
  | inl e ↦ rw (e, lines) (tt, lines-NoFeed s)
  | inr e ↦ rw (e, lines) (add_to_first-NoFeed c (lines s) e (lines-NoFeed s))
]

trim_right-NoFeed : (p : ℕ → Bool) (s : Text) → NoFeed s → NoFeed (trim_right p s)
trim_right-NoFeed p [] h = tt
trim_right-NoFeed p (c ∷ s) h = elim (Bool-cases (is_empty (trim_right p s))) [
  | inl e ↦ elim (Bool-cases (p c)) [
    | inl f ↦ rw (e, f, trim_right) tt
    | inr f ↦ rw (e, f, trim_right) (h.0, tt)
  ]
  | inr e ↦ rw (e, trim_right) (h.0, trim_right-NoFeed p s h.1)
]

trim_left-NoFeed : (s : Text) → NoFeed s → NoFeed (trim_left s)
trim_left-NoFeed [] h = tt
trim_left-NoFeed (c ∷ s) h = elim (Bool-cases (is_space c)) [
  | inl e ↦ rw (e, trim_left) (trim_left-NoFeed s h.1)
  | inr e ↦ rw (e, trim_left) h
]

trimmed-NoFeed : (s : Text) → NoFeed s → NoFeed (trimmed s)
trimmed-NoFeed s h =
    trim_left-NoFeed (trim_right is_space (trim_right is_return s))
      (trim_right-NoFeed is_space (trim_right is_return s) (trim_right-NoFeed is_return s h))

but_last-NoFeed : (s : Text) → NoFeed s → NoFeed (but_last s)
but_last-NoFeed [] h = tt
but_last-NoFeed (c ∷ []) h = tt
but_last-NoFeed (c ∷ d ∷ s) h = (h.0, but_last-NoFeed (d ∷ s) h.1)

lines-feed : (s r : Text) → NoFeed s → lines (s ++ (10 ∷ r)) ≡ s ∷ lines r
lines-feed [] r h = refl
lines-feed (c ∷ s) r h = rw (h.0, lines) (ap (add_to_first c) (lines-feed s r h.1))

-- A text and a space before the first line
abbrev spaced : Text → List Text → List Text
spaced s [] = (s ++ (32 ∷ [])) ∷ []
spaced s (l ∷ ls) = (s ++ (32 ∷ l)) ∷ ls

add_to_first-spaced :
    (c : ℕ) (s : Text) (ls : List Text) → add_to_first c (spaced s ls) ≡ spaced (c ∷ s) ls
add_to_first-spaced c s [] = refl
add_to_first-spaced c s (l ∷ ls) = refl

space_first : (ls : List Text) → add_to_first 32 ls ≡ spaced [] ls
space_first [] = refl
space_first (l ∷ ls) = refl

lines-space : (s r : Text) → NoFeed s → lines (s ++ (32 ∷ r)) ≡ spaced s (lines r)
lines-space [] r h = space_first (lines r)
lines-space (c ∷ s) r h =
    rw (h.0, lines) (ap (add_to_first c) (lines-space s r h.1) ∙ add_to_first-spaced c s (lines r))

append_nil : (ws : List Text) → ws ++ [] ≡ ws
append_nil [] = refl
append_nil (w ∷ ws) = ap (λ vs. w ∷ vs) (append_nil ws)

words-spaced :
    (s : Text) (ls : List Text) → map words (spaced s ls) ≡ before_first (words s) (map words ls)
words-spaced s [] = ap (λ ws. ws ∷ []) (words-append s [] ∙ append_nil (words s))
words-spaced s (l ∷ ls) = ap (λ ws. ws ∷ map words ls) (words-append s l)

-- The lines that are checked have the words of the instructions.
words-logical : (ls : List Text) → All NoFeed ls → map words (lines (logical ls)) ≡ instructions ls
words-logical [] h = refl
words-logical (raw ∷ rest) h = elim (Bool-cases (is_comment (trimmed raw))) [
  | inl e ↦ rw (e, logical) (words-logical rest h.1)
  | inr e ↦ elim (Bool-cases (ends_backslash (trimmed raw))) [
    | inl f ↦
        rw (e, f, logical)
          (ap (map words) (
              lines-space (but_last (trimmed raw)) (logical rest)
                (but_last-NoFeed (trimmed raw) (trimmed-NoFeed raw h.0)))
            ∙ words-spaced (but_last (trimmed raw)) (lines (logical rest))
            ∙ ap (before_first (words (but_last (trimmed raw)))) (words-logical rest h.1))
    | inr f ↦
        rw (e, f, logical)
          (ap (map words) (lines-feed (trimmed raw) (logical rest) (trimmed-NoFeed raw h.0))
            ∙ ap (λ following. words (trimmed raw) ∷ following) (words-logical rest h.1))
  ]
]

check_lines-words : (ls : List Text) → check_lines ls ≡ first_refused (map words ls)
check_lines-words [] = refl
check_lines-words (l ∷ ls) = rw (check_line-words l, check_lines-words ls) refl

-- A Dockerfile is refused exactly for the first remote argument of the first ADD with one, over the
-- words of its instructions: a comment between its lines is skipped and space around them is no part
-- of a word. The words of a continued line are taken apart from those of the next one, and an empty
-- line ends an instruction.
pub validate_untrusted_dockerfile-instructions :
    (text : Text) → validate_untrusted_dockerfile text ≡ first_refused (instructions (lines text))
unfolding validate_untrusted_dockerfile
validate_untrusted_dockerfile-instructions text =
    check_lines-words (lines (logical (lines text)))
    ∙ ap first_refused (words-logical (lines text) (lines-NoFeed text))
