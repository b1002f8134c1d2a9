-- ===== src/Sandbox/Extracted.antt =====
-- What `unzip` of services/sandbox-runner/internal/sandbox/artifact.go leaves on the disk.
use quant_dominater.Base.{
  Bool, ap₂, ℕ, ◌+◌, ◌/◌, ◌≤◌, true, false, ◌&&◌, Option, none, some, List, [], ◌∷◌, ◌++◌, ◌≡◌,
  refl, sym, ap, ◌∙◌, inl, inr, All, All-append, ltb, length, Bool-cases, Option-cases, arith,
  if◌then◌else◌,
}
use quant_dominater.Orchestrator.Store.{Error, ◌or_else◌}
use quant_dominater.Sandbox.Paths.{FilePath, join}
use quant_dominater.Sandbox.Within.{Within, is_within-below}
use quant_dominater.Sandbox.Unzip.{
  Entry, Written, is_within, budget, remaining, least, Round, goes_on, stops, copy_entry,
  extract_file, extract, finish_round, extract_all, unzip, max_zip_total_bytes,
}

abbrev pub bytes_of : List Written → ℕ
bytes_of [] = 0
bytes_of (w ∷ ws) = w.bytes + bytes_of ws

bytes_of-append : (xs ys : List Written) → bytes_of (xs ++ ys) ≡ bytes_of xs + bytes_of ys
bytes_of-append [] ys = omega arith
bytes_of-append (x ∷ xs) ys = omega (arith, bytes_of-append xs ys)

-- The file that an entry of an archive stands for.
abbrev pub file_of : FilePath → Entry → List Written
file_of dst e = if e.is_dir then [] else record { path = join dst e.name; bytes = e.actual } ∷ []

abbrev pub files_of : FilePath → List Entry → List Written
files_of dst [] = []
files_of dst (e ∷ es) = file_of dst e ++ files_of dst es

-- What the round of an entry may do.
abbrev RoundOk : FilePath → Entry → ℕ → Round → Type 0
RoundOk dst e total (stops x ws) =
    (total + bytes_of ws ≤ max_zip_total_bytes) × All (λ (w : Written). Within dst w.path) ws
RoundOk dst e total (goes_on t ws) =
    (t ≡ total + bytes_of ws)
    × (t ≤ max_zip_total_bytes)
    × All (λ (w : Written). Within dst w.path) ws
    × (ws ≡ file_of dst e)

least_le : (a b : ℕ) → least a b ≤ b
least_le a b = ground arith

least_all : (a b : ℕ) → ltb b a ≡ false → least a b ≡ a
least_all a b h = ground arith

remaining_lem : (total : ℕ) → total ≤ 536870912 → total + remaining total ≡ 536870912
remaining_lem total h = ground arith

module _ (dst : FilePath) (e : Entry) (total : ℕ) (fits : total ≤ 536870912)
    (inside : Within dst (join dst e.name)) (is_file : e.is_dir ≡ false) where
  copy_entry-Ok :
      (fault : Option (ℕ × Error))
      → RoundOk dst e total (copy_entry (join dst e.name) e total fault)
  copy_entry-Ok (some (n, x)) = (
    omega (
      arith,
      least_le n (least e.actual (remaining total)),
      least_le e.actual (remaining total),
      remaining_lem total fits,
    ),
    (inside, tt),
  )
  copy_entry-Ok none = elim (Bool-cases (ltb (remaining total) e.actual)) [
    | inl l ↦
        rw (l, copy_entry)
          (
            omega (arith, least_le e.actual (remaining total), remaining_lem total fits),
            (inside, tt),
          )
    | inr l ↦
        rw (l, copy_entry)
          (
            omega arith,
            omega (arith, least_le e.actual (remaining total), remaining_lem total fits),
            (inside, tt),
            whole l,
          )
  ]
    where
      whole :
          ltb (remaining total) e.actual ≡ false
          → record { path = join dst e.name; bytes = least e.actual (remaining total) } ∷ []
            ≡ file_of dst e
      whole l =
          ap (λ (n : ℕ). record { path = join dst e.name; bytes = n } ∷ [])
            (least_all e.actual (remaining total) l)
          ∙ sym (
              ap (λ b. if b then [] else record { path = join dst e.name; bytes = e.actual } ∷ [])
                is_file)

  extract_file-Ok : RoundOk dst e total (extract_file (join dst e.name) e total)
  extract_file-Ok =
      elim (Bool-cases
        (ltb 0 e.compressed_size && ltb 200 (e.uncompressed_size / e.compressed_size))) [
          | inl r ↦ rw (r, extract_file) (omega arith, tt)
          | inr r ↦ elim (Bool-cases (ltb (budget total) e.uncompressed_size)) [
            | inl b ↦ rw (r, extract_file) (rw (b, extract_file) (omega arith, tt))
            | inr b ↦
                elim (Option-cases ((e.mkdir_parent or_else e.open_error) or_else e.create_error)) [
                  | inl o ↦
                      rw (r, extract_file)
                        (rw (b, extract_file) (rw (o, extract_file) (copy_entry-Ok e.copy_fault)))
                  | inr (x, o) ↦
                      rw (r, extract_file)
                        (rw (b, extract_file) (rw (o, extract_file) (omega arith, tt)))
                ]
          ]
        ]

-- A round keeps within the limit and within the destination, and goes on only when it has written the
-- whole file.
extract-Ok :
    (dst : FilePath) (e : Entry) (total : ℕ)
    → total ≤ 536870912
    → RoundOk dst e total (extract dst e total)
extract-Ok dst e total fits = elim (Bool-cases (is_within dst.parts (join dst e.name).parts)) [
  | inl w ↦ rw (w, extract) (kind w e.is_dir refl)
  | inr w ↦ rw (w, extract) (omega arith, tt)
]
  where
    no_file : e.is_dir ≡ true → [] ≡ file_of dst e
    no_file d =
        sym (ap (λ b. if b then [] else record { path = join dst e.name; bytes = e.actual } ∷ []) d)

    made :
        e.is_dir ≡ true
        → (m : Option Error)
        → RoundOk dst e total (elim m [ some x ↦ stops x [] | none ↦ goes_on total [] ])
    made d (some x) = (omega arith, tt)
    made d none = (omega arith, fits, tt, no_file d)

    kind :
        is_within dst.parts (join dst e.name).parts ≡ true
        → (b : Bool) → e.is_dir ≡ b
        → RoundOk dst e total (
            if b
            then elim e.mkdir [ some x ↦ stops x [] | none ↦ goes_on total [] ]
            else extract_file (join dst e.name) e total)
    kind w true d = made d e.mkdir
    kind w false d = extract_file-Ok dst e total fits (is_within-below dst.parts _ w) d

-- What an extraction has written, by how it ended.
abbrev pub Extracts : FilePath → List Entry → ℕ → Option Error × List Written → Type 0
Extracts dst entries total (e, ws) =
    (total + bytes_of ws ≤ max_zip_total_bytes)
    × All (λ (w : Written). Within dst w.path) ws
    × (e ≡ none → ws ≡ files_of dst entries)

finish_round-Extracts :
    (dst : FilePath) (e : Entry) (es : List Entry) (total : ℕ) (r : Round)
    (next : ℕ → Option Error × List Written)
    → RoundOk dst e total r
    → ((t : ℕ) → t ≤ 536870912 → Extracts dst es t (next t))
    → Extracts dst (e ∷ es) total (finish_round r next)
finish_round-Extracts dst e es total (stops x ws) next (fits, inside) h =
    (fits, inside, λ none. absurd (cc none))
finish_round-Extracts dst e es total (goes_on t ws) next (sum, fits, inside, whole) h =
    let (rest_fits, rest_inside, rest_whole) = h t fits in
    (
      omega (arith, sum, rest_fits, bytes_of-append ws (next t).1),
      All-append (λ (w : Written). Within dst w.path) ws (next t).1 inside rest_inside,
      λ good. ap₂ ◌++◌ whole (rest_whole good),
    )

extract_all-Extracts :
    (dst : FilePath) (entries : List Entry) (total : ℕ)
    → total ≤ 536870912
    → Extracts dst entries total (extract_all dst entries total)
unfolding extract_all
extract_all-Extracts dst [] total fits = (omega arith, tt, λ h. refl)
extract_all-Extracts dst (e ∷ es) total fits =
    finish_round-Extracts dst e es total (extract dst e total) (λ t. extract_all dst es t)
      (extract-Ok dst e total fits) (λ t. extract_all-Extracts dst es t)

-- What `unzip` has written, by how it ended.
abbrev pub Unzips : FilePath → List Entry → Option Error × List Written → Type 0
Unzips dst entries (e, ws) =
    (bytes_of ws ≤ max_zip_total_bytes)
    × All (λ (w : Written). Within dst w.path) ws
    × (e ≡ none → (ws ≡ files_of dst entries) × (length entries ≤ 10000))

-- Whatever an archive declares and holds, and whatever fails: `unzip` writes at most 512 MiB, and
-- only to paths in the destination. It succeeds only when there are at most 10000 entries and every
-- file among them has been written in full.
pub unzip-Unzips : (dst : FilePath) (entries : List Entry) → Unzips dst entries (unzip dst entries)
unfolding unzip
unzip-Unzips dst entries = elim (Bool-cases (ltb 10000 (length entries))) [
  | inl l ↦ rw (l, unzip) (omega arith, tt, λ h. absurd (cc h))
  | inr l ↦
      let (fits, inside, whole) = extract_all-Extracts dst entries 0 (omega arith) in
      rw (l, unzip) (omega (arith, fits), inside, λ h. (whole h, few (length entries) l))
]
  where
    few : (n : ℕ) → ltb 10000 n ≡ false → n ≤ 10000
    few n h = ground arith
