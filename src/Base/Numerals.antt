-- ===== src/Base/Numerals.antt =====
-- What the source uses of strconv on bytes.
use Prim.Native.Nat.{ℕ, zero, suc, ◌+◌, ◌-◌, ◌*◌, ◌/◌, ◌%◌, ◌^◌, ◌<◌}
use mathlib.Core.Path.{◌≡◌, refl}
use mathlib.Core.Bool.{Bool, true, false, ◌&&◌}
use mathlib.Core.Option.{Option, none, some}
use mathlib.Core.List.{List, [], ◌∷◌, ◌++◌}
use native.Mathlib.Omega.{arith}
use drawbridge.Base.Tests.{eqb, leb, ltb, if◌then◌else◌}

-- The digits of a number after the value so far.
unfoldable pub digits_value : ℕ → List ℕ → Option ℕ
digits_value acc [] = some acc
digits_value acc (c ∷ cs) =
    let rest = digits_value (acc * 10 + (c - b'0')) cs in
    if leb b'0' c && leb c b'9' then rest else none

fits : ℕ → Option ℕ → Option ℕ
fits bound none = none
fits bound (some v) = if ltb v bound then some v else none

-- strconv.ParseUint(s, 10, bits)
unfoldable pub parse_uint : ℕ → List ℕ → Option ℕ
unfolding fits
parse_uint bits [] = none
parse_uint bits (c ∷ cs) = fits (2 ^ bits) (digits_value 0 (c ∷ cs))

-- The library's integers, over the native numbers.
pub data ℤ : Type 0 where
  pos negsuc : ℕ → ℤ

abbrev pub equals_nat : ℤ → ℕ → Bool
equals_nat (pos m) n = eqb m n
equals_nat (negsuc m) n = false

with_sign : Bool → ℕ → ℤ
with_sign false v = pos v
with_sign true zero = pos zero
with_sign true (suc v) = negsuc v

signed : Bool → ℕ → Option ℕ → Option ℤ
unfolding with_sign
signed minus bound none = none
signed minus bound (some v) = if ltb v bound then some (with_sign minus v) else none

unsigned_part : Bool → ℕ → List ℕ → Option ℤ
unfolding signed
unsigned_part minus bound [] = none
unsigned_part minus bound (c ∷ cs) = signed minus bound (digits_value 0 (c ∷ cs))

-- strconv.Atoi with 64-bit ints.
unfoldable pub atoi : List ℕ → Option ℤ
unfolding unsigned_part
atoi [] = none
atoi (c ∷ cs) =
    if eqb c b'-'
    then unsigned_part true (2 ^ 63 + 1) cs
    else if eqb c b'+'
    then unsigned_part false (2 ^ 63) cs
    else unsigned_part false (2 ^ 63) (c ∷ cs)

decimal_rounds : ℕ → ℕ → List ℕ
decimal_rounds zero n = []
decimal_rounds (suc rounds) n =
    let front = decimal_rounds rounds (n / 10) in
    if ltb n 10 then (b'0' + n) ∷ [] else front ++ (b'0' + n % 10) ∷ []

-- %d of a number that is not negative: n + 1 rounds are enough, since each divides by ten.
unfoldable pub decimal : ℕ → List ℕ
unfolding decimal_rounds
decimal n = decimal_rounds (suc n) n

digits_value-append :
    (acc v : ℕ) (xs : List ℕ) (d : ℕ)
    → digits_value acc xs ≡ some v
    → d < 10
    → digits_value acc (xs ++ (b'0' + d) ∷ []) ≡ some (v * 10 + d)
unfolding digits_value
digits_value-append acc v [] d h lt = ground arith
digits_value-append acc v (c ∷ cs) d h lt =
    ground (arith, digits_value-append (acc * 10 + (c - b'0')) v cs d)

digits_value-decimal_rounds :
    (rounds n : ℕ) → n < rounds → digits_value 0 (decimal_rounds rounds n) ≡ some n
unfolding decimal_rounds digits_value
digits_value-decimal_rounds zero n h = absurd (omega arith)
digits_value-decimal_rounds (suc rounds) n h = ground (
  arith,
  digits_value-decimal_rounds rounds (n / 10),
  digits_value-append 0 (n / 10) (decimal_rounds rounds (n / 10)) (n % 10),
)

-- What is printed reads back.
pub digits_value-decimal : (n : ℕ) → digits_value 0 (decimal n) ≡ some n
unfolding decimal
digits_value-decimal n = digits_value-decimal_rounds (suc n) n (omega arith)

abbrev pub nonempty : List ℕ → Bool
nonempty [] = false
nonempty (c ∷ cs) = true

nonempty-append : (xs : List ℕ) (c : ℕ) → nonempty (xs ++ c ∷ []) ≡ true
nonempty-append [] c = refl
nonempty-append (x ∷ xs) c = refl

pub nonempty-decimal : (n : ℕ) → nonempty (decimal n) ≡ true
unfolding decimal decimal_rounds
nonempty-decimal n = ground (arith, nonempty-append (decimal_rounds n (n / 10)) (b'0' + n % 10))

atoi-digits :
    (t : List ℕ) (n : ℕ)
    → digits_value 0 t ≡ some n
    → nonempty t ≡ true
    → n < 2 ^ 63
    → atoi t ≡ some (pos n)
unfolding atoi unsigned_part signed with_sign digits_value
atoi-digits [] n h e lt = ground arith
atoi-digits (c ∷ cs) n h e lt = ground arith

pub atoi-decimal : (n : ℕ) → n < 2 ^ 63 → atoi (decimal n) ≡ some (pos n)
atoi-decimal n lt = atoi-digits (decimal n) n (digits_value-decimal n) (nonempty-decimal n) lt

parse_uint-digits :
    (bits : ℕ) (t : List ℕ) (n : ℕ)
    → digits_value 0 t ≡ some n
    → nonempty t ≡ true
    → n < 2 ^ bits
    → parse_uint bits t ≡ some n
unfolding parse_uint fits
parse_uint-digits bits [] n h e lt = ground arith
parse_uint-digits bits (c ∷ cs) n h e lt = ground (arith, h)
