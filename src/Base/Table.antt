-- ===== src/Base/Table.antt =====
-- A Go map as an association list: one entry for a key, in an order that no operation depends on.
use Prim.Native.Nat.{suc, ◌≤◌}
use mathlib.Core.Path.{◌≡◌, refl}
use mathlib.Core.Option.{Option, none, some}
use mathlib.Core.List.{List, [], ◌∷◌, map}
use native.Mathlib.Omega.{arith}
use drawbridge.Base.Tests.{if◌then◌else◌, is_some}
use drawbridge.Base.Lists.{length}
use drawbridge.Base.Eq.{Comparable, ◌==◌, contains}

-- The keys in the order of a `range`.
abbrev pub keys {ℓ κ} : {K : Type ℓ} {V : Type κ} → List (K × V) → List K
keys = map (λ p. p.0)

module _ {ℓ κ} {K : Type ℓ} {V : Type κ} ⦃c : Comparable K⦄ where
  -- m[key]
  unfoldable pub lookup : K → List (K × V) → Option V
  lookup key [] = none
  lookup key ((k, value) ∷ rest) = if k == key then some value else lookup key rest

  -- delete(m, key)
  unfoldable pub delete : K → List (K × V) → List (K × V)
  delete key [] = []
  delete key ((k, value) ∷ rest) =
      let others = delete key rest in if k == key then others else (k, value) ∷ others

  -- m[key] = value
  unfoldable pub insert : K → V → List (K × V) → List (K × V)
  insert key value m = (key, value) ∷ delete key m

  pub lookup-delete :
      (key other : K) (m : List (K × V))
      → lookup other (delete key m) ≡ (if key == other then none else lookup other m)
  unfolding lookup delete
  lookup-delete key other [] = ground arith
  lookup-delete key other ((k, value) ∷ rest) = ground (
    arith,
    lookup-delete key other rest,
    c.equal_iff key other,
    c.equal_iff k key,
    c.equal_iff k other,
  )

  pub lookup-insert :
      (key other : K) (value : V) (m : List (K × V))
      → lookup other (insert key value m) ≡ (if key == other then some value else lookup other m)
  unfolding lookup insert
  lookup-insert key other value m = ground (arith, lookup-delete key other m)

  pub length-delete-le : (key : K) (m : List (K × V)) → length (delete key m) ≤ length m
  unfolding delete
  length-delete-le key [] = omega arith
  length-delete-le key ((k, value) ∷ rest) = ground (arith, length-delete-le key rest)

  pub length-insert-le :
      (key : K) (value : V) (m : List (K × V)) → length (insert key value m) ≤ suc (length m)
  unfolding insert
  length-insert-le key value m = omega (arith, length-delete-le key m)

  pub contains-keys : (key : K) (m : List (K × V)) → contains key (keys m) ≡ is_some (lookup key m)
  unfolding contains lookup
  contains-keys key [] = refl
  contains-keys key ((k, value) ∷ rest) = ground (arith, contains-keys key rest)
