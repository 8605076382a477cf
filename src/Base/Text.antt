-- ===== src/Base/Text.antt =====
-- What the source uses of strconv.
use Prim.Native.Nat.{ℕ, zero, suc, ◌/◌, ◌%◌}
use Prim.Native.String.{String, ◌++◌}
use mathlib.Core.List.{[], ◌∷◌}
use drawbridge.Base.Tests.{ltb, if◌then◌else◌}
use drawbridge.Base.Lists.{get_or}

infixl 65 ◌<>◌
abbrev pub ◌<>◌ : String → String → String
◌<>◌ = ◌++◌

digit_text : ℕ → String
digit_text d = get_or ("0" ∷ "1" ∷ "2" ∷ "3" ∷ "4" ∷ "5" ∷ "6" ∷ "7" ∷ "8" ∷ "9" ∷ []) d ""

-- Twenty digits hold every 64-bit integer.
itoa_digits : ℕ → ℕ → String
unfolding digit_text
itoa_digits zero n = ""
itoa_digits (suc fuel) n =
    let front = itoa_digits fuel (n / 10) in
    if ltb n 10 then digit_text n else front <> digit_text (n % 10)

-- strconv.Itoa of a number that is not negative.
unfoldable pub itoa : ℕ → String
unfolding itoa_digits
itoa n = itoa_digits 20 n
