-- ===== src/OciRuntime/CommandLine.antt =====
-- dispatch.go, and the command line of cmd/drawbridge-runc/main_linux.go: which runtime the wrapper
-- stands in for, its subcommand, the bundle, and the real runtime's path. Words are lists of bytes.
use drawbridge.Base.{
  ℕ, Bool, true, false, ◌&&◌, ◌||◌, not, List, [], ◌∷◌, if◌then◌else◌, length, drop, ltb, eqb,
}
use drawbridge.Base.Eq.{◌==◌, contains}
use drawbridge.Base.Bytes.{bytes, bytes_eq, has_prefix}

abbrev pub Word : Type 0
Word = List ℕ

pub record Runtime : Type 0 where
  pub name : Word
  pub env_override : List Word
  pub probe : List Word
  pub value_flags : List Word

abbrev pub runc_runtime : Runtime
runc_runtime = record {
  name = bytes "runc";
  env_override = bytes "DRAWBRIDGE_RUNTIME" ∷ bytes "DRAWBRIDGE_RUNC" ∷ [];
  probe = bytes "/usr/sbin/runc" ∷ bytes "/usr/bin/runc" ∷ bytes "/usr/local/sbin/runc" ∷ [];
  value_flags =
      bytes "--log"
      ∷ bytes "--log-format"
      ∷ bytes "--root"
      ∷ bytes "--criu"
      ∷ bytes "--rootless"
      ∷ [];
}

abbrev pub crun_runtime : Runtime
crun_runtime = record {
  name = bytes "crun";
  env_override = bytes "DRAWBRIDGE_RUNTIME" ∷ [];
  probe =
      bytes "/usr/bin/crun"
      ∷ bytes "/usr/local/sbin/crun"
      ∷ bytes "/usr/sbin/crun"
      ∷ bytes "/usr/local/bin/crun"
      ∷ [];
  value_flags =
      bytes "--root"
      ∷ bytes "--log"
      ∷ bytes "--log-format"
      ∷ bytes "--log-level"
      ∷ bytes "--cgroup-manager"
      ∷ [];
}

abbrev pub wrapper_prefix : Word
wrapper_prefix = bytes "drawbridge-"

-- `base` is filepath.Base of argv[0].
unfoldable pub runtime_for : Word → Runtime
runtime_for base =
    if has_prefix wrapper_prefix base && drop (length wrapper_prefix) base == crun_runtime.name
    then crun_runtime
    else runc_runtime

-- Neither empty nor begun by a dash.
unfoldable pub is_command : Word → Bool
is_command [] = true
is_command (c ∷ w) = not (eqb c b'-')

-- The loop; `skips` after a flag whose value is the next word, which `i++` passes over.
unfoldable pub subcommand_from : Runtime → Bool → List Word → Word × List Word
subcommand_from rt skips [] = ([], [])
subcommand_from rt true (value ∷ args) = subcommand_from rt false args
subcommand_from rt false (a ∷ args) =
    let next = subcommand_from rt (contains a rt.value_flags) args in
    if is_command a then (a, args) else next

unfoldable pub subcommand : Runtime → List Word → Word × List Word
subcommand rt args = subcommand_from rt false args

-- A word `--bundle=dir` whose value is not empty.
unfoldable pub has_value : Word → Word → Bool
has_value flag a = ltb (length flag) (length a) && has_prefix flag a

-- The next word, if there is one.
abbrev pub next_or : Word → List Word → Word
next_or bundle [] = bundle
next_or bundle (dir ∷ rest) = dir

unfoldable pub bundle_of : Word → List Word → Word
bundle_of bundle [] = bundle
bundle_of bundle (a ∷ rest) =
    bundle_of
      (if a == bytes "--bundle" || a == bytes "-b"
        then next_or bundle rest
        else if has_value (bytes "--bundle=") a
        then drop (length (bytes "--bundle=")) a
        else if has_value (bytes "-b=") a
        then drop (length (bytes "-b=")) a
        else bundle)
      rest

-- Whether the wrapper looks at a bundle, and which.
unfoldable pub create_bundle : Runtime → List Word → Bool × Word
create_bundle rt args =
    let (sub, rest) = subcommand rt args in
    if sub == bytes "create" || sub == bytes "run"
    then (true, bundle_of (bytes ".") rest)
    else (false, [])

-- The first variable whose value, trimmed, is not empty. `getenv` gives it trimmed.
unfoldable pub override : (Word → Word) → List Word → Word
override getenv [] = []
override getenv (k ∷ ks) =
    let later = override getenv ks in if getenv k == [] then later else getenv k

-- The loop over the candidates.
unfoldable pub probed : (Word → Word) → Word → List Word → Word
probed canon me [] = []
probed canon me (p ∷ ps) =
    let later = probed canon me ps in
    if canon p == [] then later else if not (me == []) && canon p == me then later else p

unfoldable pub pick : (Word → Word) → Runtime → Word → Word → Word
pick canon rt pinned self =
    if not (pinned == []) then pinned else probed canon (canon self) rt.probe
