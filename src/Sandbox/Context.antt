-- ===== src/Sandbox/Context.antt =====
-- services/sandbox-runner/internal/sandbox/artifact.go: `prepareBuildContext` and
-- `writeDefaultDockerfile`.
use quant_dominater.Base.{Bool, true, false, ◌&&◌, not, Option, none, some, [], if◌then◌else◌}
use quant_dominater.Orchestrator.Store.{Error, message, Result, ok, err}
use quant_dominater.Sandbox.Paths.{Text, codes, text_eq}
use quant_dominater.Sandbox.Dockerfile.{to_lower, trim_space, validate_untrusted_dockerfile}

-- What `os.Stat` finds at the address of the artifact: a directory, or a file by its extension.
pub data Artifact : Type 0 where
  directory : Artifact
  file : Text → Artifact

pub record BuildDir : Type 0 where
  pub has_go_mod : Bool
  pub dockerfile : Option Text

-- The answers of the file system; `filled` is what copying or extracting the artifact leaves.
pub record FileSystem : Type 0 where
  pub stat : Result Artifact
  pub made : Option Error
  pub filled : Result BuildDir
  pub go_mod_written : Option Error
  pub dockerfile_read : Option Error
  pub dockerfile_written : Option Error

-- `fmt.Errorf` of a text
abbrev refused : Text → Error
refused arg = message "contestant Dockerfile uses remote ADD"

abbrev pub go_dockerfile : Text
go_dockerfile =
    codes
      "FROM golang:1.22-alpine AS build\nWORKDIR /src\nCOPY . .\nRUN go mod tidy\nRUN go build -o /engine .\n\nFROM alpine:3.20\nWORKDIR /app\nCOPY --from=build /engine /engine\nEXPOSE 8080\nENTRYPOINT [\"/engine\"]\n"

abbrev pub rust_dockerfile : Text
rust_dockerfile =
    codes
      "FROM rust:1-slim AS build\nWORKDIR /src\nCOPY . .\nRUN cargo build --release --locked || cargo build --release\nRUN mkdir -p /out && \\\n    find target/release -maxdepth 1 -type f -perm -111 ! -name '*.d' -exec cp {} /out/engine \\; -quit\n\nFROM debian:stable-slim\nWORKDIR /app\nCOPY --from=build /out/engine /engine\nEXPOSE 8080\nENTRYPOINT [\"/engine\"]\n"

abbrev pub binary_dockerfile : Text
binary_dockerfile =
    codes
      "FROM debian:stable-slim\nWORKDIR /app\nCOPY engine /engine\nRUN chmod +x /engine\nEXPOSE 8080\nENTRYPOINT [\"/engine\"]\n"

module _ (lower : Text → Text) where
  -- The switch of `writeDefaultDockerfile`, on the language in lower case
  abbrev pub default_of : Text → Option Text
  default_of l =
      if text_eq l []
      then some go_dockerfile
      else if text_eq l (codes "go")
      then some go_dockerfile
      else if text_eq l (codes "rust")
      then some rust_dockerfile
      else if text_eq l (codes "binary")
      then some binary_dockerfile
      else if text_eq l (codes "bin")
      then some binary_dockerfile
      else none

  -- The answer to the writing, the content, and the directory
  abbrev pub write_default : Option Error → Option Text → BuildDir → BuildDir × Option Error
  write_default written none dir = (dir, some (message "no default Dockerfile for language"))
  write_default none (some content) dir = (record dir { dockerfile = some content }, none)
  write_default (some e) (some content) dir = (dir, some e)

  -- `validateUntrustedDockerfile` with the answer to its reading
  abbrev pub checked : Option Error → Option Text → Option Error
  checked (some e) arg = some e
  checked none none = none
  checked none (some arg) = some (refused arg)

  abbrev pub own_dockerfile : FileSystem → Text → BuildDir → BuildDir × Bool × Option Error
  own_dockerfile fs content dir =
      (dir, true, checked fs.dockerfile_read (validate_untrusted_dockerfile content))

  abbrev pub no_dockerfile : FileSystem → Text → BuildDir → BuildDir × Bool × Option Error
  no_dockerfile fs language dir =
      let (dir', e) =
        write_default fs.dockerfile_written (default_of (lower (trim_space language))) dir in
      (dir', false, e)

  -- From the test for a Dockerfile on: the directory, whether the Dockerfile is the contestant's, and
  -- the error
  abbrev pub with_dockerfile :
      FileSystem → Text → Option Text → BuildDir → BuildDir × Bool × Option Error
  with_dockerfile fs language none dir = no_dockerfile fs language dir
  with_dockerfile fs language (some content) dir = own_dockerfile fs content dir

  -- `go.mod` is added to a single file of Go.
  abbrev pub needs_go_mod : Artifact → Text → BuildDir → Bool
  needs_go_mod directory language dir = false
  needs_go_mod (file ext) language dir =
      not (text_eq (to_lower ext) (codes ".zip"))
      && text_eq language (codes "go")
      && text_eq (to_lower ext) (codes ".go")
      && not dir.has_go_mod

  abbrev pub with_go_mod :
      FileSystem → Text → Bool → Option Error → BuildDir → BuildDir × Bool × Option Error
  with_go_mod fs language false written dir = with_dockerfile fs language dir.dockerfile dir
  with_go_mod fs language true (some e) dir = (dir, false, some e)
  with_go_mod fs language true none dir =
      with_dockerfile fs language dir.dockerfile (record dir { has_go_mod = true })

  abbrev pub prepare_filled :
      FileSystem → Text → Artifact → Result BuildDir → Option BuildDir × Bool × Option Error
  prepare_filled fs language artifact (err e) = (none, false, some e)
  prepare_filled fs language artifact (ok dir) =
      let (dir', own, e) =
        with_go_mod fs language (needs_go_mod artifact language dir) fs.go_mod_written dir in
      (some dir', own, e)

  abbrev pub prepare_made :
      FileSystem → Text → Result Artifact → Option Error → Option BuildDir × Bool × Option Error
  prepare_made fs language (err e) made = (none, false, some e)
  prepare_made fs language (ok artifact) (some e) = (none, false, some e)
  prepare_made fs language (ok artifact) none = prepare_filled fs language artifact fs.filled

  -- `prepareBuildContext`, of a directory that is not there before
  unfoldable pub prepare_build_context : FileSystem → Text → Option BuildDir × Bool × Option Error
  prepare_build_context fs language = prepare_made fs language fs.stat fs.made
