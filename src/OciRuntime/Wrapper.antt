-- ===== src/OciRuntime/Wrapper.antt =====
-- cmd/drawbridge-runc/main_linux.go: one run of the wrapper, up to its exec.
use drawbridge.Base.{ℕ, Bool, true, false, Option, none, some, List, [], ◌∷◌, if◌then◌else◌}
use drawbridge.Base.Eq.{◌==◌, string_eq}
use drawbridge.Base.Bytes.{bytes_eq}
use drawbridge.Base.{String}
use drawbridge.OciRuntime.Mutate.{
  Codec, Outcome, bad_config, bad_spec, panics, unchanged, injected, mutate_config,
}
use drawbridge.OciRuntime.CommandLine.{Word, Runtime, create_bundle, override, pick}

-- The texts of the bundle's config.json and of the file beside it that replaces it.
pub record Files : Type 0 where
  pub config : Option (List ℕ)
  pub temporary : Option (List ℕ)

-- What the system says while the wrapper runs: the environment (values trimmed), the agent's socket
-- and whether a dial of it is answered, whether config.json has a mode, what os.WriteFile leaves in
-- the file where it fails, and whether the rename works.
pub record World : Type 0 where
  pub getenv : Word → Word
  pub canon : Word → Word
  pub self : Word
  pub sock : String
  pub metadata : String
  pub agent_answers : Bool
  pub stats : Bool
  pub write_fails : Option (List ℕ)
  pub renames : Bool

-- os.WriteFile of the temporary file, then os.Rename.
unfoldable pub replaced : Bool → Option (List ℕ) → List ℕ → Files → Files
replaced renames (some partial) out files = record files { temporary = some partial }
replaced true none out files = record { config = some out; temporary = none }
replaced false none out files = record files { temporary = none }

unfoldable pub with_agent : World → List ℕ → Files → Files
with_agent w out files =
    if w.agent_answers
    then if w.stats then replaced w.renames w.write_fails out files else files
    else files

-- `none` where the process panics.
unfoldable pub after_decision : World → Files → Outcome → Option Files
after_decision w files bad_config = some files
after_decision w files bad_spec = some files
after_decision w files panics = none
after_decision w files (unchanged raw why) = some files
after_decision w files (injected out) = some (with_agent w out files)

unfoldable pub try_read : Codec → World → Files → Option (List ℕ) → Option Files
try_read codec w files none = some files
try_read codec w files (some raw) =
    after_decision w files (mutate_config codec raw w.sock w.metadata)

unfoldable pub try_inject : Codec → World → Files → Option Files
try_inject codec w files = try_read codec w files files.config

-- How the wrapper ends: the exec of a path with an argument list, no runtime found, or a panic.
pub data End : Type 0 where
  execs : Word → List Word → End
  no_runtime crashes : End

unfoldable pub exec_runtime : World → Runtime → List Word → End
exec_runtime w rt args =
    let real = pick w.canon rt (override w.getenv rt.env_override) w.self in
    if real == [] then no_runtime else execs real (real ∷ args)

unfoldable pub ended : World → Runtime → List Word → Files → Option Files → Files × End
ended w rt args files none = (files, crashes)
ended w rt args files (some written) = (written, exec_runtime w rt args)

-- `bundle_files` are the files of a bundle.
unfoldable pub main : Codec → World → Runtime → List Word → (Word → Files) → Files × End
main codec w rt args bundle_files =
    let (creates, bundle) = create_bundle rt args in
    let files = bundle_files bundle in
    ended w rt args files (if creates then try_inject codec w files else some files)
