-- ===== src/Sandbox/Tests.antt =====
-- The handling of artifacts at concrete inputs.
use quant_dominater.Base.{ℕ, String, true, false, none, some, List, [], ◌∷◌, ◌≡◌, refl}
use quant_dominater.Orchestrator.Store.{message, ok, err}
use quant_dominater.Sandbox.Paths.{Text, codes, split, walk, place, FilePath, clean, strip_prefix}
use quant_dominater.Sandbox.Artifact.{
  inside, resolve_local_artifact, clean_filename, stored_name, artifact_uri,
}
use quant_dominater.Sandbox.Contained.{Resolves, resolve_local_artifact-Resolves}
use quant_dominater.Sandbox.Addresses.{resolve_local_artifact-artifact_uri}
use quant_dominater.Sandbox.Unzip.{Entry, extract_all, unzip}
use quant_dominater.Sandbox.Extracted.{Unzips, unzip-Unzips}

program : Unit {0}
unfolding split walk place strip_prefix resolve_local_artifact clean_filename extract_all unzip
program = tt

abbrev root : FilePath
root = record { rooted = true; parts = codes "submissions" ∷ codes "srv" ∷ [] }

abbrev repo : FilePath
repo = record { rooted = true; parts = codes "repo" ∷ [] }

abbrev as_it_is : Text → Text
as_it_is s = s

abbrev sneaky : Text
sneaky = codes "local://submissions/sub_1/../../etc/passwd"

resolve_local_artifact-Resolves_example :
    Resolves root (clean (codes "sub_1/../../etc/passwd")) (resolve_local_artifact root repo sneaky)
unfolding program
resolve_local_artifact-Resolves_example =
    resolve_local_artifact-Resolves root repo sneaky (codes "sub_1/../../etc/passwd") refl

sneaky_refused : resolve_local_artifact root repo sneaky ≡ err (message "invalid artifact uri")
unfolding program
sneaky_refused = refl

detour_resolved :
    resolve_local_artifact root repo (codes "local://submissions/sub_1/./x//../art_1_a.zip")
    ≡ ok (
        inside (record {
          rooted = true;
          parts = codes "art_1_a.zip" ∷ codes "sub_1" ∷ codes "submissions" ∷ codes "srv" ∷ [];
        }))
unfolding program
detour_resolved = refl

-- The client names its file "../../a b.zip".
resolve_local_artifact-artifact_uri_example :
    resolve_local_artifact root repo
      (artifact_uri as_it_is (codes "sub_1") (codes "art_1") (codes "../../a b.zip"))
    ≡ ok (
        inside (record {
          rooted = true;
          parts =
              stored_name as_it_is (codes "art_1") (codes "../../a b.zip")
              ∷ codes "sub_1"
              ∷ root.parts;
        }))
resolve_local_artifact-artifact_uri_example =
    resolve_local_artifact-artifact_uri root repo as_it_is (codes "sub_1") (codes "art_1")
      (codes "../../a b.zip") (refl, (refl, (refl, (refl, (refl, tt)))))
      (record { not_blank = refl; not_up = refl }) (refl, (refl, (refl, (refl, (refl, tt)))))

named : stored_name as_it_is (codes "art_1") (codes "../../a b.zip") ≡ codes "art_1_a_b.zip"
unfolding program
named = refl

abbrev an_entry : String → ℕ → Entry
an_entry name size = record {
  name = codes name;
  is_dir = false;
  compressed_size = 10;
  uncompressed_size = 20;
  actual = size;
  mkdir = none;
  mkdir_parent = none;
  open_error = none;
  create_error = none;
  copy_fault = none;
}

-- The second entry declares 20 bytes and has a thousand million.
abbrev bomb : List Entry
bomb = an_entry "main.go" 20 ∷ an_entry "x/y" 1000000000 ∷ []

unzip-Unzips_example : Unzips repo bomb (unzip repo bomb)
unzip-Unzips_example = unzip-Unzips repo bomb

bomb_refused :
    (unzip repo bomb).0 ≡ some (message "zip expands beyond the limit; refusing to extract")
unfolding program
bomb_refused = refl

escape_refused :
    (unzip repo (an_entry "../../etc/cron.d/x" 20 ∷ [])).0
    ≡ some (message "zip entry escapes build context")
unfolding program
escape_refused = refl
