-- ===== src/Sandbox/Unzip.antt =====
-- services/sandbox-runner/internal/sandbox/artifact.go: `unzip`, as a function of the entries of an
-- archive and of what the calls for each of them answer.
use quant_dominater.Base.{
  ℕ, ◌+◌, ◌-◌, ◌/◌, ◌^◌, Bool, true, false, ◌&&◌, Option, none, some, List, [], ◌∷◌, ◌++◌, ltb, leb,
  length, if◌then◌else◌,
}
use quant_dominater.Base.Int.{pos, negsuc, sub_ℕ, pos_part}
use quant_dominater.Orchestrator.Store.{Error, message, ◌or_else◌}
use quant_dominater.Sandbox.Paths.{Text, text_eq, Parts, FilePath, join}

abbrev pub max_zip_entries : ℕ
max_zip_entries = 10000

abbrev pub max_zip_ratio : ℕ
max_zip_ratio = 200

-- 512 << 20
abbrev pub max_zip_total_bytes : ℕ
max_zip_total_bytes = 536870912

-- An entry, and what happens to it. `actual` are the bytes that its reader has, whatever the header
-- declares; `copy_fault` is an error of the copy behind so many bytes.
pub record Entry : Type 0 where
  pub name : Text
  pub is_dir : Bool
  pub compressed_size : ℕ
  pub uncompressed_size : ℕ
  pub actual : ℕ
  pub mkdir : Option Error
  pub mkdir_parent : Option Error
  pub open_error : Option Error
  pub create_error : Option Error
  pub copy_fault : Option (ℕ × Error)

-- Bytes that were written to a file.
pub record Written : Type 0 where
  pub path : FilePath
  pub bytes : ℕ

abbrev pub parts_eq : Parts → Parts → Bool
parts_eq [] [] = true
parts_eq [] (q ∷ qs) = false
parts_eq (p ∷ ps) [] = false
parts_eq (p ∷ ps) (q ∷ qs) = if text_eq p q then parts_eq ps qs else false

-- `cleanTarget` is `cleanDst`, or goes on behind it and a '/'. The destination is absolute, and not
-- the root directory.
abbrev pub is_within : Parts → Parts → Bool
is_within dst [] = parts_eq [] dst
is_within dst (p ∷ ps) = if parts_eq (p ∷ ps) dst then true else is_within dst ps

-- `uint64(maxZipTotalBytes-total)`
abbrev pub budget : ℕ → ℕ
budget total = elim (sub_ℕ max_zip_total_bytes total) [ pos n ↦ n | negsuc n ↦ 2 ^ 64 - n - 1 ]

-- The bytes that `io.LimitReader(srcFile, remaining)` lets through.
abbrev pub remaining : ℕ → ℕ
remaining total = pos_part (sub_ℕ max_zip_total_bytes total)

abbrev pub least : ℕ → ℕ → ℕ
least a b = if leb a b then a else b

-- How the round of an entry ends: with a new total, or with an error.
pub data Round : Type 0 where
  goes_on : ℕ → List Written → Round
  stops : Error → List Written → Round

abbrev pub expands_beyond : Error
expands_beyond = message "zip expands beyond the limit; refusing to extract"

-- The copy of an entry, and the probe of one more byte.
abbrev pub copy_entry : FilePath → Entry → ℕ → Option (ℕ × Error) → Round
copy_entry target e total (some (n, x)) =
    stops x (record { path = target; bytes = least n (least e.actual (remaining total)) } ∷ [])
copy_entry target e total none =
    let w : Written = record { path = target; bytes = least e.actual (remaining total) } in
    if ltb (remaining total) e.actual
    then stops expands_beyond (w ∷ [])
    else goes_on (total + w.bytes) (w ∷ [])

abbrev pub extract_file : FilePath → Entry → ℕ → Round
extract_file target e total =
    if ltb 0 e.compressed_size && ltb max_zip_ratio (e.uncompressed_size / e.compressed_size)
    then stops (message "zip entry exceeds max compression ratio") []
    else if ltb (budget total) e.uncompressed_size
    then stops expands_beyond []
    else elim ((e.mkdir_parent or_else e.open_error) or_else e.create_error) [
      | some x ↦ stops x []
      | none ↦ copy_entry target e total e.copy_fault
    ]

-- The body of the loop.
abbrev pub extract : FilePath → Entry → ℕ → Round
extract dst e total =
    if is_within dst.parts (join dst e.name).parts
    then (if e.is_dir
        then elim e.mkdir [ some x ↦ stops x [] | none ↦ goes_on total [] ]
        else extract_file (join dst e.name) e total)
    else stops (message "zip entry escapes build context") []

abbrev pub behind : List Written → Option Error × List Written → Option Error × List Written
behind ws (e, rest) = (e, ws ++ rest)

abbrev pub finish_round : Round → (ℕ → Option Error × List Written) → Option Error × List Written
finish_round (stops x ws) next = (some x, ws)
finish_round (goes_on total ws) next = behind ws (next total)

unfoldable pub extract_all : FilePath → List Entry → ℕ → Option Error × List Written
extract_all dst [] total = (none, [])
extract_all dst (e ∷ es) total = finish_round (extract dst e total) (λ t. extract_all dst es t)

-- `unzip` of an archive that can be opened
unfoldable pub unzip : FilePath → List Entry → Option Error × List Written
unfolding extract_all
unzip dst entries =
    if ltb max_zip_entries (length entries)
    then (some (message "zip has too many entries"), [])
    else extract_all dst entries 0
