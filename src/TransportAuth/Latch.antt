-- ===== src/TransportAuth/Latch.antt =====
-- latch.go: the process's record of which secret paths are configured. `clean` is filepath.Clean.
use drawbridge.Base.{ℕ, String, Bool, false, Option, none, some, List, ◌∷◌, if◌then◌else◌}
use drawbridge.Base.Eq.{◌==◌, string_eq, contains}
use drawbridge.TransportAuth.Secret.{
  File, Loaded, ok, err, err_absent, err_malformed, err_configured_missing, load,
}

-- sync.Map used as a set: a path that is stored again stays stored.
abbrev pub Latched : Type 0
Latched = List String

module _ (clean : String → String) where
  -- Require
  unfoldable pub require : String → Latched → Latched
  require path l = if path == "" then l else clean path ∷ l

  -- Configured
  unfoldable pub configured : String → Latched → Bool
  configured path l = if path == "" then false else contains (clean path) l

  loaded_latched : String → Loaded (List ℕ) → Latched → Latched × Loaded (Option (List ℕ))
  loaded_latched path (err err_absent) l =
      (l, if configured path l then err err_configured_missing else ok none)
  loaded_latched path (err err_malformed) l = (clean path ∷ l, err err_malformed)
  loaded_latched path (err err_configured_missing) l = (clean path ∷ l, err err_configured_missing)
  loaded_latched path (ok s) l = (clean path ∷ l, ok (some s))

  -- LoadLatched, with what the file holds when it is read.
  unfoldable pub load_latched : String → File → Latched → Latched × Loaded (Option (List ℕ))
  unfolding loaded_latched
  load_latched path file l = if path == "" then (l, ok none) else loaded_latched path (load file) l
