-- ===== src/AcceptLoop/Backoff.antt =====
-- The delays of acceptloop.go, and what it does with every answer.
use drawbridge.Base.{
  ℕ, zero, suc, ◌*◌, ◌^◌, ◌≤◌, ◌≡◌, refl, ap, true, false, some, List, [], ◌∷◌, ◌++◌, arith, ◌⊎◌,
}
use Prim.Native.Nat.{min}
use native.Mathlib.Nat.{pow-suc}
use drawbridge.AcceptLoop.{
  AcceptError, retryable, next, min_delay, max_delay, Accepted, conn, error, Action, handled, slept,
  returned, serve,
}

-- The delay before the retry after `k` + 1 errors in a row: 5 ms doubled `k` times, at most 1 s.
abbrev pub backoff : ℕ → ℕ
backoff k = min (min_delay * 2 ^ k) max_delay

pow-pos : (k : ℕ) → 1 ≤ 2 ^ k
pow-pos zero = omega arith
pow-pos (suc k) = omega (arith, pow-suc 2 k, pow-pos k)

next_first : next 0 ≡ backoff 0
unfolding next
next_first = refl

next-backoff : (k : ℕ) → next (backoff k) ≡ backoff (suc k)
unfolding next
next-backoff k = ground (arith, pow-suc 2 k, pow-pos k)

-- `k` errors in a row, all of them worth a retry.
abbrev pub AllRetryable : List AcceptError → Type 0
AllRetryable [] = Unit {0}
AllRetryable (e ∷ es) = (retryable (some e) ≡ true) × AllRetryable es

abbrev pub sleeps {ℓ} : {C : Type ℓ} → ℕ → List AcceptError → List (Action C)
sleeps k [] = []
sleeps k (e ∷ es) = slept (backoff k) ∷ sleeps (suc k) es

abbrev pub errors {ℓ} : {C : Type ℓ} → List AcceptError → List (Accepted C)
errors [] = []
errors (e ∷ es) = error e ∷ errors es

module _ {ℓ} {C : Type ℓ} (c : C) (rest : List (Accepted C)) where
  serve-backoff :
      (k delay : ℕ) (es : List AcceptError)
      → next delay ≡ backoff k
      → AllRetryable es
      → serve delay (errors es ++ conn c ∷ rest) ≡ sleeps k es ++ handled c ∷ serve 0 rest
  unfolding serve
  serve-backoff k delay [] h a = refl
  serve-backoff k delay (e ∷ es) h a =
      rw (a.0, h)
        (ap (◌∷◌ (slept (backoff k))) (serve-backoff (suc k) (backoff k) es (next-backoff k) a.1))

-- However many errors in a row are worth a retry, the loop survives them: it sleeps 5 ms, then twice
-- as long each time up to 1 s, handles the next connection, and starts over with no delay.
pub serve_survives {ℓ} :
    {C : Type ℓ} (c : C) (rest : List (Accepted C)) (es : List AcceptError)
    → AllRetryable es
    → serve 0 (errors es ++ conn c ∷ rest) ≡ sleeps 0 es ++ handled c ∷ serve 0 rest
serve_survives c rest es a = serve-backoff c rest 0 0 es next_first a

-- An error that is not worth a retry, a closed listener among them, ends the loop at once, whatever
-- the delay and whatever would come after.
pub serve_ends {ℓ} :
    {C : Type ℓ} (delay : ℕ) (e : AcceptError) (rest : List (Accepted C))
    → (e.is_closed ≡ true) ⊎ (retryable (some e) ≡ false)
    → serve delay (error e ∷ rest) ≡ returned e ∷ []
unfolding serve retryable
serve_ends delay e rest h = ground arith
