-- ===== src/AcceptLoop.antt =====
-- internal/acceptloop/acceptloop.go: the accept loop with a bounded backoff. Nanoseconds.
pub mod Backoff
pub mod Runs
use drawbridge.Base.{
  ℕ, ◌+◌, ◌*◌, ◌/◌, Bool, true, false, not, ◌&&◌, ◌||◌, Option, none, some, List, [], ◌∷◌, eqb, leb,
  if◌then◌else◌,
}

abbrev pub min_delay : ℕ
min_delay = 5_000_000

abbrev pub max_delay : ℕ
max_delay = 1_000_000_000

-- What `Retryable` asks of an error: what it wraps, and whether it is a net.Error that says it is
-- temporary.
pub record AcceptError : Type 0 where
  pub is_closed : Bool
  pub is_emfile : Bool
  pub is_enfile : Bool
  pub temporary : Bool

unfoldable pub retryable : Option AcceptError → Bool
retryable none = false
retryable (some e) =
    if e.is_closed then false else if e.is_emfile || e.is_enfile then true else e.temporary

unfoldable pub next : ℕ → ℕ
next prev =
    if eqb prev 0 then min_delay else if leb (max_delay / 2) prev then max_delay else prev * 2

-- The answer of one accept(): a connection, or an error.
pub data Accepted {ℓ} (C : Type ℓ) : Type ℓ where
  conn : C → Accepted C
  error : AcceptError → Accepted C

-- What the loop does, in order.
pub data Action {ℓ} (C : Type ℓ) : Type ℓ where
  handled : C → Action C
  slept : ℕ → Action C
  returned : AcceptError → Action C

-- Serve over the answers that accept() gives; a list without a fatal error is a loop still running.
unfoldable pub serve {ℓ} : {C : Type ℓ} → ℕ → List (Accepted C) → List (Action C)
serve delay [] = []
serve delay (conn c ∷ rest) = let more = serve 0 rest in handled c ∷ more
serve delay (error e ∷ rest) =
    let more = serve (next delay) rest in
    if retryable (some e) then slept (next delay) ∷ more else returned e ∷ []
