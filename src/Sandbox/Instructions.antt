-- ===== src/Sandbox/Instructions.antt =====
-- services/sandbox-runner/internal/sandbox/artifact.go: `validateUntrustedDockerfile` reads the words of
-- an instruction across the lines that it is continued on.
use quant_dominater.Base.{
  ℕ, Bool, true, false, Option, none, List, [], ◌∷◌, ◌++◌, ◌≡◌, refl, ap, sym, ◌∙◌, inl, inr,
  Bool-cases, if◌then◌else◌,
}
use quant_dominater.Sandbox.Paths.{Text, add_to_first}
use quant_dominater.Sandbox.Dockerfile.{
  is_space, is_empty, trim_right, trim_left, trim_space, starts_space, words, is_comment,
  ends_backslash, but_last, trimmed, remote_add, check_line, or_next,
}

-- The words of a line come before those of the instruction that it is continued by.
abbrev pub before_first : List Text → List (List Text) → List (List Text)
before_first ws [] = ws ∷ []
before_first ws (i ∷ is) = (ws ++ i) ∷ is

-- The instructions of a file by their words: a comment is skipped wherever it stands, and a line that
-- ends in a backslash goes on with the next one.
abbrev pub instructions : List Text → List (List Text)
instructions [] = [] ∷ []
instructions (raw ∷ rest) =
    let s = trimmed raw in
    let following = instructions rest in
    if is_comment s
    then following
    else if ends_backslash s
    then before_first (words (but_last s)) following
    else words s ∷ following

abbrev pub first_refused : List (List Text) → Option Text
first_refused [] = none
first_refused (i ∷ is) = or_next (remote_add i) (first_refused is)

starts_space-append : (s r : Text) → starts_space (s ++ (32 ∷ r)) ≡ starts_space s
starts_space-append [] r = refl
starts_space-append (c ∷ s) r = refl

-- A text that begins with a word has a first word.
abbrev pub HasWord : List Text → Type 0
HasWord [] = ⊥
HasWord (w ∷ ws) = Unit {0}

add_to_first-HasWord : (c : ℕ) (ws : List Text) → HasWord (add_to_first c ws)
add_to_first-HasWord c [] = tt
add_to_first-HasWord c (w ∷ ws) = tt

pub words-HasWord : (s : Text) → starts_space s ≡ false → HasWord (words s)
words-HasWord [] h = absurd cc
words-HasWord (c ∷ s) h = elim (Bool-cases (starts_space s)) [
  | inl e ↦ rw (h, words) (rw (e, words) tt)
  | inr e ↦ rw (h, words) (rw (e, words) (add_to_first-HasWord c (words s)))
]

pub add_to_first-append :
    (c : ℕ) (xs ys : List Text) → HasWord xs → add_to_first c (xs ++ ys) ≡ add_to_first c xs ++ ys
add_to_first-append c [] ys h = elim h [ ]
add_to_first-append c (x ∷ xs) ys h = refl

pub words-append : (s r : Text) → words (s ++ (32 ∷ r)) ≡ words s ++ words r
words-append [] r = refl
words-append (c ∷ s) r = elim (Bool-cases (is_space c)) [
  | inl e ↦ rw (e, words) (words-append s r)
  | inr e ↦ elim (Bool-cases (starts_space s)) [
    | inl f ↦
        rw (e, words)
          (rw (starts_space-append s r, f) (ap (λ ws. (c ∷ []) ∷ ws) (words-append s r)))
    | inr f ↦
        rw (e, words)
          (rw (starts_space-append s r, f)
            (ap (add_to_first c) (words-append s r)
              ∙ add_to_first-append c (words s) (words r) (words-HasWord s f)))
  ]
]

trim_left_word : (c : ℕ) (s : Text) → is_space c ≡ false → trim_left (c ∷ s) ≡ c ∷ s
trim_left_word c s e = rw (e, trim_left) refl

words-trim_left : (s : Text) → words (trim_left s) ≡ words s
words-trim_left [] = refl
words-trim_left (c ∷ s) = elim (Bool-cases (is_space c)) [
  | inl e ↦ rw (e, trim_left) (words-trim_left s)
  | inr e ↦ ap words (trim_left_word c s e)
]

starts_space-trim_right :
    (p : ℕ → Bool) (s : Text)
    → ((c : ℕ) → p c ≡ true → is_space c ≡ true)
    → starts_space (trim_right p s) ≡ starts_space s
starts_space-trim_right p [] spaces = refl
starts_space-trim_right p (c ∷ s) spaces = elim (Bool-cases (is_empty (trim_right p s))) [
  | inl e ↦ elim (Bool-cases (p c)) [
    | inl f ↦ rw (e, f, trim_right) (sym (spaces c f))
    | inr f ↦ rw (e, f, trim_right) refl
  ]
  | inr e ↦ rw (e, trim_right) refl
]

empty_words : (s : Text) → is_empty s ≡ true → words s ≡ []
empty_words [] h = refl
empty_words (c ∷ s) h = absurd cc

empty_starts : (s : Text) → is_empty s ≡ true → starts_space s ≡ true
empty_starts [] h = refl
empty_starts (c ∷ s) h = absurd cc

no_words : (s t : Text) → words t ≡ words s → is_empty t ≡ true → words s ≡ []
no_words s t h e = sym h ∙ empty_words t e

-- The words of two texts that go on alike
words-cons :
    (c : ℕ) (s t : Text)
    → words s ≡ words t
    → starts_space s ≡ starts_space t
    → words (c ∷ s) ≡ words (c ∷ t)
words-cons c s t h k = rw (h, k, words) refl

pub words-trim_right :
    (p : ℕ → Bool) (s : Text)
    → ((c : ℕ) → p c ≡ true → is_space c ≡ true)
    → words (trim_right p s) ≡ words s
words-trim_right p [] spaces = refl
words-trim_right p (c ∷ s) spaces = elim (Bool-cases (is_empty (trim_right p s))) [
  | inl e ↦ elim (Bool-cases (p c)) [
    | inl f ↦
        rw (e, f, trim_right)
          (rw (spaces c f, words)
            (sym (no_words s (trim_right p s) (words-trim_right p s spaces) e)))
    | inr f ↦
        rw (e, f, trim_right)
          (words-cons c [] s (sym (no_words s (trim_right p s) (words-trim_right p s spaces) e))
            (sym (sym (starts_space-trim_right p s spaces) ∙ empty_starts (trim_right p s) e)))
  ]
  | inr e ↦
      rw (e, trim_right)
        (words-cons c (trim_right p s) s (words-trim_right p s spaces)
          (starts_space-trim_right p s spaces))
]

pub words-trim_space : (s : Text) → words (trim_space s) ≡ words s
words-trim_space s =
    words-trim_left (trim_right is_space s) ∙ words-trim_right is_space s (λ c h. h)

pub check_line-words : (l : Text) → check_line l ≡ remote_add (words l)
check_line-words l = elim (Bool-cases (is_empty (trim_space l))) [
  | inl e ↦
      rw (e, check_line)
        (sym (ap remote_add (sym (words-trim_space l) ∙ empty_words (trim_space l) e)))
  | inr e ↦ rw (e, check_line) (ap remote_add (words-trim_space l))
]
