-- ===== src/TransportAuth/Sticky.antt =====
-- The latch of latch.go over the life of the process: absence is a mode only for a path at which no
-- secret was ever required or seen.
use drawbridge.Base.{
  ℕ, ◌≡◌, refl, String, Bool, true, false, not, ◌&&◌, ◌||◌, Option, none, some, List, [], ◌∷◌,
  arith, if◌then◌else◌, Option-cases, inl, inr,
}
use drawbridge.Base.Eq.{◌==◌, string_eq, contains}
use drawbridge.TransportAuth.Secret.{
  File, absent, unreadable, content, Loaded, ok, err, err_absent, err_malformed,
  err_configured_missing, load, parse,
}
use drawbridge.TransportAuth.Latch.{Latched, require, configured, load_latched}

pub data Access : Type 0 where
  requires : String → Access
  loads : String → File → Access

module _ (clean : String → String) where
  unfoldable pub access : Access → Latched → Latched
  access (requires path) l = require clean path l
  access (loads path file) l = (load_latched clean path file l).0

  unfoldable pub access_all : List Access → Latched → Latched
  access_all [] l = l
  access_all (a ∷ as') l = access_all as' (access a l)

  abbrev pub is_present : File → Bool
  is_present absent = false
  is_present _ = true

  -- An access that configures the path: an explicit requirement, or a read that found a file at it,
  -- well-formed or not.
  abbrev pub configures : String → Access → Bool
  configures path (requires p) = not (p == "") && clean p == clean path
  configures path (loads p file) = not (p == "") && is_present file && clean p == clean path

  abbrev pub ever_configured : String → List Access → Bool
  ever_configured path [] = false
  ever_configured path (a ∷ as') = configures path a || ever_configured path as'

  configured-access :
      (path : String) (a : Access) (l : Latched)
      → (path == "") ≡ false
      → configured clean path (access a l) ≡ (configures path a || configured clean path l)
  unfolding access require configured load_latched load parse contains
  configured-access path (requires p) l h = ground arith
  configured-access path (loads p absent) l h = ground arith
  configured-access path (loads p unreadable) l h = ground arith
  configured-access path (loads p (content b)) l h = elim (Option-cases (parse b)) [
    | inl q ↦ ground (arith, q)
    | inr (x, q) ↦ ground (arith, q)
  ]

  configured-access_all :
      (path : String) (as' : List Access) (l : Latched)
      → (path == "") ≡ false
      → configured clean path (access_all as' l)
        ≡ (ever_configured path as' || configured clean path l)
  unfolding access_all
  configured-access_all path [] l h = refl
  configured-access_all path (a ∷ as') l h =
      ground (arith, configured-access_all path as' (access a l) h, configured-access path a l h)

  configured-nil : (path : String) → configured clean path [] ≡ false
  unfolding configured contains
  configured-nil path = ground arith

  -- What a read of the file means after a history of accesses.
  abbrev pub meaning : String → List Access → Loaded (List ℕ) → Loaded (Option (List ℕ))
  meaning path as' (ok s) = ok (some s)
  meaning path as' (err err_absent) =
      if ever_configured path as' then err err_configured_missing else ok none
  meaning path as' (err err_malformed) = err err_malformed
  meaning path as' (err err_configured_missing) = err err_configured_missing

  -- A read of a path, after any history of this process: a well-formed file gives its secret, a
  -- malformed or unreadable one is an error, and a file that is not there is unauthenticated mode
  -- only if the path was never required and no file was ever found at it; otherwise it is the error
  -- that the configured secret is missing.
  pub load_latched-history :
      (path : String) (file : File) (as' : List Access)
      → (path == "") ≡ false
      → (load_latched clean path file (access_all as' [])).1 ≡ meaning path as' (load file)
  unfolding load_latched
  load_latched-history path file as' h =
      let e = configured-access_all path as' [] h in ground (arith, e, configured-nil path)
