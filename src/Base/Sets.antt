-- ===== src/Base/Sets.antt =====
-- A Go map[K]struct{} as the list of its keys, each once, and what `any` and `contains` see of it.
use Prim.Native.Nat.{ℕ, suc, ◌+◌, ◌≤◌}
use mathlib.Core.Path.{◌≡◌, refl}
use mathlib.Core.Bool.{Bool, true, not, ◌&&◌, ◌||◌}
use mathlib.Core.List.{List, [], ◌∷◌, ◌++◌}
use native.Mathlib.Omega.{arith}
use drawbridge.Base.Tests.{if◌then◌else◌}
use drawbridge.Base.Lists.{any, keep, length}
use drawbridge.Base.Eq.{Comparable, ◌==◌, contains}

module _ {ℓ} {K : Type ℓ} ⦃c : Comparable K⦄ where
  -- set[k] = struct{}{}
  unfoldable pub put : K → List K → List K
  put k set = if contains k set then set else k ∷ set

  -- delete(set, k)
  unfoldable pub remove : K → List K → List K
  remove x [] = []
  remove x (y ∷ ys) = let others = remove x ys in if y == x then ys else y ∷ others

  pub length-remove :
      (x : K) (xs : List K) → contains x xs ≡ true → suc (length (remove x xs)) ≡ length xs
  unfolding remove contains
  length-remove x [] h = ground arith
  length-remove x (y ∷ ys) h = ground (arith, length-remove x ys)

  pub length-remove-le : (x : K) (xs : List K) → length (remove x xs) ≤ length xs
  unfolding remove
  length-remove-le x [] = omega arith
  length-remove-le x (y ∷ ys) = ground (arith, length-remove-le x ys)

  pub contains-put : (k x : K) (set : List K) → contains x (put k set) ≡ (k == x || contains x set)
  unfolding put contains
  contains-put k x set = ground (arith, c.equal_iff k x)

  pub any-contains :
      (p : K → Bool) (k : K) (set : List K) → contains k set ≡ true → p k ≡ true → any p set ≡ true
  unfolding contains
  any-contains p k [] h q = ground arith
  any-contains p k (x ∷ xs) h q = ground (arith, c.equal_iff x k, any-contains p k xs)

  pub any-put : (p : K → Bool) (k : K) (set : List K) → any p (put k set) ≡ (p k || any p set)
  unfolding put
  any-put p k set = ground (arith, any-contains p k set)

  pub contains-keep :
      (p : K → Bool) (k : K) (xs : List K) → contains k (keep p xs) ≡ (contains k xs && p k)
  unfolding contains
  contains-keep p k [] = refl
  contains-keep p k (x ∷ xs) = ground (arith, c.equal_iff x k, contains-keep p k xs)

  -- delete(set, k), of a list that may hold k more than once.
  unfoldable pub discard : K → List K → List K
  discard k set = keep (λ x. not (k == x)) set

  pub contains-discard :
      (k x : K) (set : List K) → contains x (discard k set) ≡ (contains x set && not (k == x))
  unfolding discard
  contains-discard k x set = contains-keep (λ y. not (k == y)) x set

  -- How often a key is in a list.
  unfoldable pub occurs : K → List K → ℕ
  occurs x [] = 0
  occurs x (y ∷ ys) = let rest = occurs x ys in if y == x then suc rest else rest

  pub occurs-append : (x : K) (xs ys : List K) → occurs x (xs ++ ys) ≡ occurs x xs + occurs x ys
  unfolding occurs
  occurs-append x [] ys = ground arith
  occurs-append x (y ∷ xs) ys = ground (arith, occurs-append x xs ys)

  pub occurs-remove :
      (x y : K) (xs : List K)
      → contains y xs ≡ true
      → occurs x xs ≡ (if y == x then 1 else 0) + occurs x (remove y xs)
  unfolding occurs remove contains
  occurs-remove x y [] h = ground arith
  occurs-remove x y (z ∷ zs) h =
      ground (arith, c.equal_iff z y, c.equal_iff y x, c.equal_iff z x, occurs-remove x y zs)
