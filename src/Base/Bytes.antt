-- ===== src/Base/Bytes.antt =====
-- Texts as lists of bytes: what the source uses of the package strings.
use Prim.Native.Nat.{ℕ}
use Prim.Native.Char.{code}
use Prim.Native.String.{String}
use mathlib.Core.Path.{◌≡◌, refl}
use mathlib.Core.Logic.{◌↔◌}
use mathlib.Core.Bool.{Bool, true, false, not, ◌&&◌}
use mathlib.Core.Option.{Option, none, some}
use mathlib.Core.List.{List, [], ◌∷◌, ◌++◌}
use native.Mathlib.Omega.{arith}
use drawbridge.Base.Tests.{eqb, if◌then◌else◌}
use drawbridge.Base.Eq.{Comparable}

-- The bytes of an ASCII text.
abbrev pub bytes : String → List ℕ
bytes String.[] = []
bytes (String.◌∷◌ c s) = code c ∷ bytes s

-- ==
unfoldable pub bytes_beq : List ℕ → List ℕ → Bool
bytes_beq [] [] = true
bytes_beq [] (b ∷ bs) = false
bytes_beq (a ∷ as') [] = false
bytes_beq (a ∷ as') (b ∷ bs) = eqb a b && bytes_beq as' bs

pub bytes_beq_iff : (xs ys : List ℕ) → (bytes_beq xs ys ≡ true) ↔ (xs ≡ ys)
unfolding bytes_beq
bytes_beq_iff [] [] = ground arith
bytes_beq_iff [] (b ∷ bs) = ground arith
bytes_beq_iff (a ∷ as') [] = ground arith
bytes_beq_iff (a ∷ as') (b ∷ bs) = ground (arith, bytes_beq_iff as' bs)

instance abbrev pub bytes_eq : Comparable (List ℕ)
bytes_eq = record { equal = bytes_beq; equal_iff = bytes_beq_iff }

-- strings.HasPrefix, with the prefix first.
unfoldable pub has_prefix : List ℕ → List ℕ → Bool
has_prefix [] s = true
has_prefix (p ∷ ps) [] = false
has_prefix (p ∷ ps) (c ∷ s) = eqb p c && has_prefix ps s

cut_at : ℕ → Option (List ℕ × List ℕ) → Option (List ℕ × List ℕ)
cut_at c none = none
cut_at c (some (before, after)) = some (c ∷ before, after)

-- strings.Cut at the first byte `sep`; `none` where it does not occur.
unfoldable pub cut : ℕ → List ℕ → Option (List ℕ × List ℕ)
unfolding cut_at
cut sep [] = none
cut sep (c ∷ s) = let rest = cut_at c (cut sep s) in if eqb c sep then some ([], s) else rest

split_at : ℕ → List (List ℕ) → List (List ℕ)
split_at c [] = (c ∷ []) ∷ []
split_at c (part ∷ parts) = (c ∷ part) ∷ parts

-- strings.Split at a separator of one byte: one part more than separators.
unfoldable pub split : ℕ → List ℕ → List (List ℕ)
unfolding split_at
split sep [] = [] ∷ []
split sep (c ∷ s) = let rest = split sep s in if eqb c sep then [] ∷ rest else split_at c rest

-- strings.Join
unfoldable pub join : ℕ → List (List ℕ) → List ℕ
join sep [] = []
join sep (part ∷ []) = part
join sep (part ∷ next ∷ parts) = part ++ (sep ∷ join sep (next ∷ parts))

-- The byte does not occur.
unfoldable pub lacks : ℕ → List ℕ → Bool
lacks sep [] = true
lacks sep (c ∷ s) = not (eqb c sep) && lacks sep s

unfoldable pub all_lack : ℕ → List (List ℕ) → Bool
all_lack sep [] = true
all_lack sep (part ∷ parts) = lacks sep part && all_lack sep parts

split-lacks : (sep : ℕ) (s : List ℕ) → lacks sep s ≡ true → split sep s ≡ s ∷ []
unfolding split lacks
split-lacks sep [] h = refl
split-lacks sep (c ∷ s) h = ground (arith, split-lacks sep s)

split-append :
    (sep : ℕ) (part s : List ℕ)
    → lacks sep part ≡ true
    → split sep (part ++ (sep ∷ s)) ≡ part ∷ split sep s
unfolding split lacks
split-append sep [] s h = ground arith
split-append sep (c ∷ part) s h = ground (arith, split-append sep part s)

-- Parts without the separator survive.
pub split-join :
    (sep : ℕ) (part : List ℕ) (parts : List (List ℕ))
    → all_lack sep (part ∷ parts) ≡ true
    → split sep (join sep (part ∷ parts)) ≡ part ∷ parts
unfolding join all_lack
split-join sep part [] h = ground (arith, split-lacks sep part)
split-join sep part (next ∷ parts) h =
    ground (arith, split-append sep part (join sep (next ∷ parts)), split-join sep next parts)

pub cut-append :
    (sep : ℕ) (part s : List ℕ)
    → lacks sep part ≡ true
    → cut sep (part ++ (sep ∷ s)) ≡ some (part, s)
unfolding cut lacks
cut-append sep [] s h = ground arith
cut-append sep (c ∷ part) s h = ground (arith, cut-append sep part s)
