-- ===== src/Base/Eq.antt =====
-- Equality tests of the types that serve as keys of Go maps.
use Prim.Native.Nat.{ℕ}
use Prim.Native.String.{String}
use mathlib.Core.Path.{◌≡◌}
use mathlib.Core.Logic.{◌↔◌}
use mathlib.Core.Bool.{Bool, true, false, ◌||◌}
use mathlib.Core.List.{List, [], ◌∷◌}
use text.Mathlib.Text.{◌==◌ as text_eq}
use text.Mathlib.TextEquality.{eq_iff}
use drawbridge.Base.Tests.{eqb, eqb_iff}

-- Go's comparable types, with their == and what it decides.
pub record Comparable {ℓ} (K : Type ℓ) : Type ℓ where
  pub equal : K → K → Bool
  pub equal_iff : (x y : K) → (equal x y ≡ true) ↔ (x ≡ y)

instance abbrev pub string_eq : Comparable String
string_eq = record { equal_iff = eq_iff; equal = text_eq }

instance abbrev pub nat_eq : Comparable ℕ
nat_eq = record { equal_iff = eqb_iff; equal = eqb }

infix 50 ◌==◌
abbrev pub ◌==◌ {ℓ} : {K : Type ℓ} ⦃c : Comparable K⦄ → K → K → Bool
◌==◌ ⦃c⦄ x y = c.equal x y

-- A Go map[K]bool that is only ever set to true, as the list of its keys.
unfoldable pub contains {ℓ} : {K : Type ℓ} ⦃c : Comparable K⦄ → K → List K → Bool
contains key [] = false
contains key (k ∷ ks) = k == key || contains key ks
