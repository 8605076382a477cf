-- ===== src/Leases/Records.antt =====
-- leases.go: the text of the lease file and its fields, as bytes.
use drawbridge.Base.{
  ℕ, ◌+◌, ◌*◌, ◌^◌, Bool, true, false, not, ◌&&◌, ◌||◌, Option, none, some, List, [], ◌∷◌, ◌++◌,
  eqb, leb, ltb, if◌then◌else◌, length,
}
use drawbridge.Base.Eq.{◌==◌}
use drawbridge.Base.Bytes.{bytes, bytes_eq, cut, split, join}
use drawbridge.TransportAuth.Secret.{trim_space, hex_value, hex_encode}

-- lease; an expiry that cannot be read is 0.
pub record Lease : Type 0 where
  pub name : List ℕ
  pub ip : List ℕ
  pub hw_addr : List ℕ
  pub expiry : ℕ

abbrev pub no_lease : Lease
no_lease = record { name = []; ip = []; hw_addr = []; expiry = 0 }

-- The digits of a number in a base after the value so far.
unfoldable pub based_value : ℕ → ℕ → List ℕ → Option ℕ
based_value base acc [] = some acc
based_value base acc (c ∷ cs) = elim (hex_value c) [
  | none ↦ none
  | some d ↦ let rest = based_value base (acc * base + d) cs in if ltb d base then rest else none
]

below : ℕ → Option ℕ → ℕ
below bound none = 0
below bound (some v) = if ltb v bound then v else 0

-- strconv.ParseInt of 64 bits, with 0 for an error and for a number below 0.
unfoldable pub parse_int_or_zero : ℕ → List ℕ → ℕ
unfolding below
parse_int_or_zero base [] = 0
parse_int_or_zero base (c ∷ []) = below (2 ^ 63) (based_value base 0 (c ∷ []))
parse_int_or_zero base (c ∷ d ∷ cs) =
    if eqb c b'-'
    then 0
    else if eqb c b'+'
    then below (2 ^ 63) (based_value base 0 (d ∷ cs))
    else below (2 ^ 63) (based_value base 0 (c ∷ d ∷ cs))

lease_number : List ℕ → ℕ
lease_number [] = 0
lease_number (c ∷ []) = parse_int_or_zero 10 (c ∷ [])
lease_number (c ∷ x ∷ s) =
    if eqb c b'0' && (eqb x b'x' || eqb x b'X')
    then parse_int_or_zero 16 s
    else parse_int_or_zero 10 (c ∷ x ∷ s)

-- parseLeaseTime
unfoldable pub parse_lease_time : List ℕ → ℕ
unfolding lease_number
parse_lease_time v = lease_number (trim_space v)

-- The switch on the key of a line.
unfoldable pub with_field : List ℕ → List ℕ → Lease → Lease
with_field key val l =
    if key == bytes "name"
    then record l { name = val }
    else if key == bytes "ip_address"
    then record l { ip = val }
    else if key == bytes "hw_address"
    then record l { hw_addr = val }
    else if key == bytes "lease"
    then record l { expiry = parse_lease_time val }
    else l

unfoldable pub with_pair : Option (List ℕ × List ℕ) → Lease → Lease
with_pair none l = l
with_pair (some (key, val)) l = with_field (trim_space key) (trim_space val) l

abbrev is_blank : List ℕ → Bool
is_blank [] = true
is_blank (c ∷ s) = false

-- Its records so far, the first first, the record being read, and whether it is in one.
pub record Reading : Type 0 where
  pub out : List Lease
  pub cur : Lease
  pub is_in : Bool

-- strings.TrimSuffix of "\r" goes with the white space that follows it.
unfoldable pub read_line : List ℕ → Reading → Reading
read_line raw r =
    let line = trim_space raw in
    if line == bytes "{"
    then record r { cur = no_lease; is_in = true }
    else if line == bytes "}"
    then record {
      out =
          if r.is_in && not (is_blank r.cur.name) && not (is_blank r.cur.ip)
          then r.out ++ r.cur ∷ []
          else r.out;
      cur = no_lease;
      is_in = false;
    }
    else if not r.is_in || is_blank line
    then r
    else record r { cur = with_pair (cut b'=' line) r.cur }

unfoldable pub read_lines : List (List ℕ) → Reading → Reading
read_lines [] r = r
read_lines (line ∷ lines) r = read_lines lines (read_line line r)

-- parseLeases
unfoldable pub parse_leases : List ℕ → List Lease
parse_leases text =
    (read_lines (split b'\n' text) (record { out = []; cur = no_lease; is_in = false })).out

abbrev is_digits : List ℕ → Bool
is_digits [] = true
is_digits (c ∷ s) = leb b'0' c && leb c b'9' && is_digits s

-- What follows the hardware type, if there is one.
unfoldable pub after_type : List ℕ → Option (List ℕ × List ℕ) → Option (List ℕ)
after_type s none = some s
after_type s (some (t, rest)) = if is_blank t || not (is_digits t) then none else some rest

-- An octet of one or two hex digits.
unfoldable pub octet : List ℕ → Option ℕ
octet [] = none
octet (c ∷ []) = based_value 16 0 (c ∷ [])
octet (c ∷ d ∷ []) = based_value 16 0 (c ∷ d ∷ [])
octet (c ∷ d ∷ e ∷ s) = none

before_octets : ℕ → Option (List (List ℕ)) → Option (List (List ℕ))
before_octets v none = none
before_octets v (some rest) = some (hex_encode (v ∷ []) ∷ rest)

unfoldable pub octets : List (List ℕ) → Option (List (List ℕ))
unfolding before_octets
octets [] = some []
octets (p ∷ ps) =
    let rest = octets ps in elim (octet p) [ none ↦ none | some v ↦ before_octets v rest ]

unfoldable pub normalized : Option (List ℕ) → Option (List ℕ)
normalized none = none
normalized (some s) =
    let parts = split b':' s in
    if eqb (length parts) 6
    then elim (octets parts) [ none ↦ none | some os ↦ some (join b':' os) ]
    else none

-- normalizeHWAddr
unfoldable pub normalize_hw_addr : List ℕ → Option (List ℕ)
unfolding normalized
normalize_hw_addr s = let s' = trim_space s in normalized (after_type s' (cut b',' s'))
