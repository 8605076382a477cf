-- ===== src/Limiter.antt =====
-- The three limiters of log lines, which are one algorithm: transportauth/mac.go's Throttle,
-- agent/listen.go's rejectLimiter and agent/notifycap.go's peerLimiter. Times are nanoseconds.
pub mod Window
pub mod Runs
use drawbridge.Base.{
  ℕ, ◌+◌, String, Bool, true, false, Option, none, some, List, [], ◌∷◌, ltb, if◌then◌else◌, length,
}
use drawbridge.Base.Eq.{Comparable, ◌==◌, string_eq, nat_eq}
use drawbridge.Base.Table.{lookup, insert}

pub record Limiter {ℓ} (K : Type ℓ) : Type ℓ where
  pub every : ℕ
  pub last : List (K × ℕ)

-- newRejectLimiter, newPeerLimiter and NewThrottle.
abbrev pub new_limiter {ℓ} : {K : Type ℓ} → ℕ → Limiter K
new_limiter every = record { every = every; last = [] }

-- now.Sub(t) < every
abbrev pub recent : ℕ → ℕ → ℕ → Bool
recent every t now = ltb now (t + every)

seen_recently : ℕ → ℕ → Option ℕ → Bool
seen_recently every now none = false
seen_recently every now (some t) = recent every t now

module _ {ℓ} {K : Type ℓ} ⦃c : Comparable K⦄ where
  -- for k, t := range last { if now.Sub(t) >= every { delete(last, k) } }
  unfoldable pub prune : ℕ → ℕ → List (K × ℕ) → List (K × ℕ)
  prune every now [] = []
  prune every now ((k, t) ∷ rest) =
      let others = prune every now rest in if recent every t now then (k, t) ∷ others else others

  -- rejectLimiter.allow and peerLimiter.allow: the limiter after the call, and whether to log.
  unfoldable pub allow : K → ℕ → Limiter K → Limiter K × Bool
  unfolding seen_recently
  allow key now r =
      if seen_recently r.every now (lookup key r.last)
      then (r, false)
      else (let kept = if ltb 1024 (length r.last) then prune r.every now r.last else r.last in
          (record r { last = insert key now kept }, true))

-- Throttle.Allow: `none` is the nil *Throttle, which allows everything.
unfoldable pub throttle_allow :
    String → ℕ → Option (Limiter String) → Option (Limiter String) × Bool
throttle_allow key now none = (none, true)
throttle_allow key now (some r) = let (r', ok) = allow key now r in (some r', ok)

-- peerLimiter.allow, by uid.
abbrev pub peer_allow : ℕ → ℕ → Limiter ℕ → Limiter ℕ × Bool
peer_allow uid now l = allow uid now l
