-- ===== src/Limiter/Window.antt =====
-- A limiter lets one line through for each key and window, also when it drops old keys.
use drawbridge.Base.{ℕ, ◌+◌, ◌<◌, ◌≡◌, refl, ◌∙◌, true, false, some, List, [], ◌∷◌, arith}
use drawbridge.Base.Eq.{Comparable}
use drawbridge.Base.Table.{lookup, lookup-insert}
use drawbridge.Limiter.{Limiter, prune, allow}

module _ {ℓ} {K : Type ℓ} ⦃c : Comparable K⦄ where
  -- Calls with the times that they read.
  unfoldable pub allow_all : List (K × ℕ) → Limiter K → Limiter K
  allow_all [] r = r
  allow_all ((key, now) ∷ calls) r = allow_all calls (allow key now r).0

  -- All calls fall in the window that opens at `t`.
  abbrev pub InWindow : ℕ → ℕ → List (K × ℕ) → Type 0
  InWindow every t [] = Unit {0}
  InWindow every t ((key, now) ∷ calls) = (now < t + every) × InWindow every t calls

  -- A prune keeps the first entry of a key that is recent, and drops only what is not.
  lookup-prune :
      (key : K) (every t now : ℕ) (m : List (K × ℕ))
      → lookup key m ≡ some t
      → now < t + every
      → lookup key (prune every now m) ≡ some t
  unfolding lookup prune
  lookup-prune key every t now [] q h = cc
  lookup-prune key every t now ((k, u) ∷ rest) q h =
      ground (arith, lookup-prune key every t now rest)

  allow-every : (key : K) (now : ℕ) (r : Limiter K) → (allow key now r).0.every ≡ r.every
  unfolding allow
  allow-every key now r = ground arith

  allow-keeps :
      (key other : K) (now t : ℕ) (r : Limiter K)
      → lookup key r.last ≡ some t
      → now < t + r.every
      → lookup key (allow other now r).0.last ≡ some t
  unfolding allow
  allow-keeps key other now t r q h = ground (
    arith,
    c.equal_iff other key,
    lookup-prune key r.every t now r.last q h,
    lookup-insert other key now r.last,
    lookup-insert other key now (prune r.every now r.last),
  )

  allow_all-keeps :
      (key : K) (t : ℕ) (calls : List (K × ℕ)) (r : Limiter K)
      → lookup key r.last ≡ some t
      → InWindow r.every t calls
      → (lookup key (allow_all calls r).last ≡ some t) × ((allow_all calls r).every ≡ r.every)
  unfolding allow_all
  allow_all-keeps key t [] r q w = (q, refl)
  allow_all-keeps key t ((other, now) ∷ calls) r q w =
      let r' = (allow other now r).0 in
      let e = allow-every other now r in
      let (a, b) =
        allow_all-keeps key t calls r' (allow-keeps key other now t r q w.0) (rw e w.1) in
      (a, b ∙ e)

  allow-stamps :
      (key : K) (now : ℕ) (r : Limiter K)
      → (allow key now r).1 ≡ true
      → lookup key (allow key now r).0.last ≡ some now
  unfolding allow
  allow-stamps key now r h = ground (
    arith,
    c.equal_iff key key,
    lookup-insert key key now r.last,
    lookup-insert key key now (prune r.every now r.last),
  )

  -- Once a line for a key was let through at `t`, no later one for it is before `t + every`, whatever
  -- calls for whatever keys come between, and however many keys there are.
  pub allow_once :
      (key : K) (t now : ℕ) (calls : List (K × ℕ)) (r : Limiter K)
      → (allow key t r).1 ≡ true
      → InWindow r.every t calls
      → now < t + r.every
      → (allow key now (allow_all calls (allow key t r).0)).1 ≡ false
  unfolding allow
  allow_once key t now calls r h w lt =
      let e = allow-every key t r in
      let (a, b) =
        allow_all-keeps key t calls (allow key t r).0 (allow-stamps key t r h) (rw e w) in
      ground (arith, a, b, e)
