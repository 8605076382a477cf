-- ===== src/Base/Lists.antt =====
-- Lists over the native numbers.
use Prim.Native.Nat.{ℕ, zero, suc, ◌+◌, ◌<◌}
use mathlib.Core.Path.{◌≡◌, refl, ap}
use mathlib.Core.Bool.{Bool, false, ◌||◌}
use mathlib.Core.Logic.{◌≢◌}
use mathlib.Core.List.{List, [], ◌∷◌, ◌++◌}
use native.Mathlib.Omega.{arith}
use drawbridge.Base.Tests.{if◌then◌else◌}

module _ {ℓ} {A : Type ℓ} where
  abbrev pub length : List A → ℕ
  length [] = 0
  length (x ∷ xs) = suc (length xs)

  -- An index out of range reads the given value.
  abbrev pub get_or : List A → ℕ → A → A
  get_or [] i z = z
  get_or (x ∷ xs) zero z = x
  get_or (x ∷ xs) (suc i) z = get_or xs i z

  abbrev pub set : List A → ℕ → A → List A
  set [] i v = []
  set (x ∷ xs) zero v = v ∷ xs
  set (x ∷ xs) (suc i) v = x ∷ set xs i v

  abbrev pub take : ℕ → List A → List A
  take zero xs = []
  take (suc n) [] = []
  take (suc n) (x ∷ xs) = x ∷ take n xs

  abbrev pub drop : ℕ → List A → List A
  drop zero xs = xs
  drop (suc n) [] = []
  drop (suc n) (x ∷ xs) = drop n xs

  abbrev pub keep : (A → Bool) → List A → List A
  keep p [] = []
  keep p (x ∷ xs) = let rest = keep p xs in if p x then x ∷ rest else rest

  abbrev pub any : (A → Bool) → List A → Bool
  any p [] = false
  any p (x ∷ xs) = p x || any p xs

  pub length-append : (xs ys : List A) → length (xs ++ ys) ≡ length xs + length ys
  length-append [] ys = omega arith
  length-append (x ∷ xs) ys = omega (arith, length-append xs ys)

  pub take-append : (xs ys : List A) → take (length xs) (xs ++ ys) ≡ xs
  take-append [] ys = refl
  take-append (x ∷ xs) ys = ap (◌∷◌ x) (take-append xs ys)

  pub drop-append : (xs ys : List A) → drop (length xs) (xs ++ ys) ≡ ys
  drop-append [] ys = refl
  drop-append (x ∷ xs) ys = drop-append xs ys

  pub length-set : (xs : List A) (i : ℕ) (v : A) → length (set xs i v) ≡ length xs
  length-set [] i v = refl
  length-set (x ∷ xs) zero v = refl
  length-set (x ∷ xs) (suc i) v = ap suc (length-set xs i v)

  pub get_or-set_self :
      (xs : List A) (i : ℕ) (v z : A) → i < length xs → get_or (set xs i v) i z ≡ v
  get_or-set_self [] i v z h = absurd (omega arith)
  get_or-set_self (x ∷ xs) zero v z h = refl
  get_or-set_self (x ∷ xs) (suc i) v z h = get_or-set_self xs i v z (omega arith)

  pub get_or-set_ne :
      (xs : List A) (i j : ℕ) (v z : A) → i ≢ j → get_or (set xs i v) j z ≡ get_or xs j z
  get_or-set_ne [] i j v z h = refl
  get_or-set_ne (x ∷ xs) zero zero v z h = absurd (h refl)
  get_or-set_ne (x ∷ xs) zero (suc j) v z h = refl
  get_or-set_ne (x ∷ xs) (suc i) zero v z h = refl
  get_or-set_ne (x ∷ xs) (suc i) (suc j) v z h = get_or-set_ne xs i j v z (λ e. h (ap suc e))

  pub get_or-append_left :
      (xs ys : List A) (i : ℕ) (z : A) → i < length xs → get_or (xs ++ ys) i z ≡ get_or xs i z
  get_or-append_left [] ys i z h = absurd (omega arith)
  get_or-append_left (x ∷ xs) ys zero z h = refl
  get_or-append_left (x ∷ xs) ys (suc i) z h = get_or-append_left xs ys i z (omega arith)

  pub get_or-append_length : (xs : List A) (x z : A) → get_or (xs ++ x ∷ []) (length xs) z ≡ x
  get_or-append_length [] x z = refl
  get_or-append_length (y ∷ xs) x z = get_or-append_length xs x z

  pub drop-cons :
      (xs : List A) (i : ℕ) (z : A) → i < length xs → drop i xs ≡ get_or xs i z ∷ drop (suc i) xs
  drop-cons [] i z h = absurd (omega arith)
  drop-cons (x ∷ xs) zero z h = refl
  drop-cons (x ∷ xs) (suc i) z h = drop-cons xs i z (omega arith)

  pub drop-length : (xs : List A) → drop (length xs) xs ≡ []
  drop-length [] = refl
  drop-length (x ∷ xs) = drop-length xs
