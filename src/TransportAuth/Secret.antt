-- ===== src/TransportAuth/Secret.antt =====
-- transportauth.go: the secret's file format, and what a read of the file finds.
use drawbridge.Base.{
  ℕ, zero, suc, ◌+◌, ◌-◌, ◌*◌, ◌/◌, ◌%◌, Bool, ◌&&◌, ◌||◌, Option, none, some, List, [], ◌∷◌, ◌++◌,
  eqb, leb, ltb, if◌then◌else◌, length, get_or, drop,
}
use mathlib.Core.List.{reverse}
use Prim.Native.String.{String}
use drawbridge.Base.Eq.{◌==◌, string_eq}
use drawbridge.TransportAuth.Frame.{secret_len}

-- hex.EncodeToString's digit of a nibble.
unfoldable pub hex_digit : ℕ → ℕ
hex_digit n = if ltb n 10 then b'0' + n else b'a' + (n - 10)

unfoldable pub hex_encode : List ℕ → List ℕ
hex_encode [] = []
hex_encode (b ∷ bs) = hex_digit (b / 16) ∷ hex_digit (b % 16) ∷ hex_encode bs

-- A byte that hex.DecodeString accepts, in either case.
unfoldable pub hex_value : ℕ → Option ℕ
hex_value c =
    if leb b'0' c && leb c b'9'
    then some (c - b'0')
    else if leb b'a' c && leb c b'f'
    then some (c - b'a' + 10)
    else if leb b'A' c && leb c b'F'
    then some (c - b'A' + 10)
    else none

join_nibbles : Option ℕ → Option ℕ → Option (List ℕ) → Option (List ℕ)
join_nibbles none lo rest = none
join_nibbles (some hi) none rest = none
join_nibbles (some hi) (some lo) none = none
join_nibbles (some hi) (some lo) (some bs) = some ((hi * 16 + lo) ∷ bs)

unfoldable pub hex_decode : List ℕ → Option (List ℕ)
unfolding join_nibbles
hex_decode [] = some []
hex_decode (c ∷ []) = none
hex_decode (c ∷ d ∷ cs) = join_nibbles (hex_value c) (hex_value d) (hex_decode cs)

-- '\t', '\n', '\v', '\f', '\r', ' ': the white space of strings.TrimSpace below 0x80.
abbrev pub is_space : ℕ → Bool
is_space c = (leb 9 c && leb c 13) || eqb c 32

-- U+0085 and U+00A0, in UTF-8.
abbrev is_space2 : ℕ → ℕ → Bool
is_space2 a b = eqb a 0xc2 && (eqb b 0x85 || eqb b 0xa0)

-- U+1680, U+2000 to U+200A, U+2028, U+2029, U+202F, U+205F and U+3000, in UTF-8.
abbrev is_space3 : ℕ → ℕ → ℕ → Bool
is_space3 a b c =
    (eqb a 0xe1 && eqb b 0x9a && eqb c 0x80)
    || (eqb a 0xe2
        && eqb b 0x80
        && ((leb 0x80 c && leb c 0x8a) || eqb c 0xa8 || eqb c 0xa9 || eqb c 0xaf))
    || (eqb a 0xe2 && eqb b 0x81 && eqb c 0x9f)
    || (eqb a 0xe3 && eqb b 0x80 && eqb c 0x80)

-- The bytes of the white space character that a text begins with; 255 begins none.
unfoldable pub first_space : List ℕ → ℕ
first_space cs =
    let a = get_or cs 0 255 in
    let b = get_or cs 1 255 in
    let c = get_or cs 2 255 in
    if is_space a then 1 else if is_space2 a b then 2 else if is_space3 a b c then 3 else 0

-- The same of the character that it ends with, over the reversed text.
unfoldable pub last_space : List ℕ → ℕ
last_space cs =
    let a = get_or cs 0 255 in
    let b = get_or cs 1 255 in
    let c = get_or cs 2 255 in
    if is_space a then 1 else if is_space2 b a then 2 else if is_space3 c b a then 3 else 0

-- Each round drops a byte at least, so as many rounds as bytes are enough.
unfoldable pub trim_while : (List ℕ → ℕ) → ℕ → List ℕ → List ℕ
trim_while width zero cs = cs
trim_while width (suc rounds) cs =
    let rest = trim_while width rounds (drop (width cs) cs) in if eqb (width cs) 0 then cs else rest

abbrev pub trim_start : List ℕ → List ℕ
trim_start cs = trim_while first_space (length cs) cs

abbrev pub trim_end : List ℕ → List ℕ
trim_end cs = reverse (trim_while last_space (length cs) (reverse cs))

-- strings.TrimSpace
unfoldable pub trim_space : List ℕ → List ℕ
trim_space cs = trim_end (trim_start cs)

-- Secret.Format
unfoldable pub format : List ℕ → List ℕ
format s = hex_encode s ++ b'\n' ∷ []

-- Parse: `none` is ErrMalformed.
unfoldable pub parse : List ℕ → Option (List ℕ)
parse b =
    let txt = trim_space b in if eqb (length txt) (2 * secret_len) then hex_decode txt else none

-- What os.ReadFile finds at the path.
pub data File : Type 0 where
  absent : File
  unreadable : File
  content : List ℕ → File

pub data LoadError : Type 0 where
  err_absent err_malformed err_configured_missing : LoadError

pub data Loaded {ℓ} (A : Type ℓ) : Type ℓ where
  ok : A → Loaded A
  err : LoadError → Loaded A

parsed : Option (List ℕ) → Loaded (List ℕ)
parsed none = err err_malformed
parsed (some s) = ok s

-- Load
unfoldable pub load : File → Loaded (List ℕ)
unfolding parsed
load absent = err err_absent
load unreadable = err err_malformed
load (content b) = parsed (parse b)

optional : Loaded (List ℕ) → Loaded (Option (List ℕ))
optional (err err_absent) = ok none
optional (err err_malformed) = err err_malformed
optional (err err_configured_missing) = err err_configured_missing
optional (ok s) = ok (some s)

-- LoadOptional, with what the file holds when it is read: no memory of what was there before.
unfoldable pub load_optional : String → File → Loaded (Option (List ℕ))
unfolding optional
load_optional path file = if path == "" then ok none else optional (load file)
