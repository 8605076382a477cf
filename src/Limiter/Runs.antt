-- ===== src/Limiter/Runs.antt =====
-- The limiter at concrete calls.
use drawbridge.Base.{◌≡◌, refl, String, false, [], ◌∷◌, arith}
use drawbridge.Base.Eq.{string_eq}
use drawbridge.Base.Table.{lookup}
use drawbridge.Limiter.{Limiter, allow}
use drawbridge.Limiter.Window.{allow_all, allow_once}

abbrev throttle : Limiter String
throttle = record { every = 30; last = ("b", 2) ∷ [] }

allow_once_runs :
    (allow "a" 39 (allow_all (("b", 20) ∷ ("c", 33) ∷ []) (allow "a" 10 throttle).0)).1 ≡ false
unfolding allow lookup
allow_once_runs =
    allow_once "a" 10 39 (("b", 20) ∷ ("c", 33) ∷ []) throttle refl (omega arith) (omega arith)
