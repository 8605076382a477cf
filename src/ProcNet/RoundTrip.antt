-- ===== src/ProcNet/RoundTrip.antt =====
-- The addresses and ports of /proc/net as the kernel prints them, and proc.go's parse of them.
use drawbridge.Base.{
  ℕ, zero, suc, ◌≡◌, refl, sym, ◌∙◌, ap, ◌<◌, ◌+◌, ◌-◌, ◌*◌, ◌/◌, ◌%◌, ◌^◌, Bool, true, ◌&&◌, some,
  List, [], ◌∷◌, ◌++◌, length, take, drop, arith, ltb, eqb, if◌then◌else◌, length-append,
  take-append, drop-append, Option-cases, inl, inr,
}
use drawbridge.Base.Bytes.{cut-append, lacks}
use drawbridge.ProcNet.{
  hex_digit, hex_value, parse_hex, dword_bytes, address_bytes, parse_host, parse_cut,
  parse_proc_addr,
}

-- %X of one digit.
abbrev pub digit_of : ℕ → ℕ
digit_of d = if ltb d 10 then b'0' + d else b'A' + (d - 10)

-- A number with the given count of digits, as the kernel's %08X and %04X print it.
unfoldable pub hex : ℕ → ℕ → List ℕ
hex zero n = []
hex (suc k) n = hex k (n / 16) ++ digit_of (n % 16) ∷ []

hex_digit-digit_of : (d : ℕ) → d < 16 → hex_digit (digit_of d) ≡ some d
unfolding hex_digit
hex_digit-digit_of d h = ground arith

hex_value-append :
    (xs : List ℕ) (acc v d : ℕ)
    → hex_value xs acc ≡ some v
    → d < 16
    → hex_value (xs ++ digit_of d ∷ []) acc ≡ some (v * 16 + d)
unfolding hex_value
hex_value-append [] acc v d e h = rw (hex_digit-digit_of d h) (ground (arith, e))
hex_value-append (x ∷ xs) acc v d e h = elim (Option-cases (hex_digit x)) [
  | inl q ↦ absurd (ground (arith, rw q at e))
  | inr (w, q) ↦ rw q (hex_value-append xs (acc * 16 + w) v d (rw q at e) h)
]

-- The first number of more than the given count of digits.
abbrev pub hex_bound : ℕ → ℕ
hex_bound zero = 1
hex_bound (suc k) = 16 * hex_bound k

hex_value-hex : (k n : ℕ) → n < hex_bound k → hex_value (hex k n) 0 ≡ some n
unfolding hex hex_value
hex_value-hex zero n h = ground arith
hex_value-hex (suc k) n h =
    hex_value-append (hex k (n / 16)) 0 (n / 16) (n % 16) (hex_value-hex k (n / 16) (omega arith))
      (omega arith)
    ∙ ap some (omega arith)

length-hex : (k n : ℕ) → length (hex k n) ≡ k
unfolding hex
length-hex zero n = refl
length-hex (suc k) n =
    omega (arith, length-append (hex k (n / 16)) (digit_of (n % 16) ∷ []), length-hex k (n / 16))

parse_hex-value :
    (bits k n : ℕ) (xs : List ℕ)
    → length xs ≡ suc k
    → hex_value xs 0 ≡ some n
    → n < 2 ^ bits
    → parse_hex bits xs ≡ some n
unfolding parse_hex
parse_hex-value bits k n [] l e lt = absurd (omega (arith, l))
parse_hex-value bits k n (x ∷ xs) l e lt = rw e (ground (arith, lt))

parse_hex-hex :
    (bits k n : ℕ) → n < hex_bound (suc k) → n < 2 ^ bits → parse_hex bits (hex (suc k) n) ≡ some n
parse_hex-hex bits k n h lt =
    parse_hex-value bits k n (hex (suc k) n) (length-hex (suc k) n) (hex_value-hex (suc k) n h) lt

-- Four bytes as the kernel prints them: a number whose lowest byte is the first.
abbrev pub dword : ℕ → ℕ → ℕ → ℕ → ℕ
dword a b c d = a + 256 * b + 65536 * c + 16777216 * d

dword_bytes-dword :
    (a b c d : ℕ)
    → a < 256
    → b < 256
    → c < 256
    → d < 256
    → dword_bytes (dword a b c d) ≡ a ∷ b ∷ c ∷ d ∷ []
unfolding dword_bytes
dword_bytes-dword a b c d ha hb hc hd = ground arith

lacks-append :
    (sep : ℕ) (xs ys : List ℕ)
    → lacks sep xs ≡ true
    → lacks sep ys ≡ true
    → lacks sep (xs ++ ys) ≡ true
unfolding lacks
lacks-append sep [] ys h k = k
lacks-append sep (x ∷ xs) ys h k = ground (arith, h, lacks-append sep xs ys)

lacks-hex : (k n : ℕ) → lacks b':' (hex k n) ≡ true
unfolding hex lacks
lacks-hex zero n = refl
lacks-hex (suc k) n =
    lacks-append b':' (hex k (n / 16)) (digit_of (n % 16) ∷ []) (lacks-hex k (n / 16))
      (ground arith)

-- The bytes of an address, four at a time.
abbrev pub Quad : Type 0
Quad = ℕ × ℕ × ℕ × ℕ

unfoldable pub all_bytes : List Quad → Bool
all_bytes [] = true
all_bytes ((a, b, c, d) ∷ quads) =
    ltb a 256 && ltb b 256 && ltb c 256 && ltb d 256 && all_bytes quads

unfoldable pub bytes_of : List Quad → List ℕ
bytes_of [] = []
bytes_of ((a, b, c, d) ∷ quads) = a ∷ b ∷ c ∷ d ∷ bytes_of quads

-- As the kernel prints it: a number of eight digits for every four bytes.
unfoldable pub printed : List Quad → List ℕ
printed [] = []
printed ((a, b, c, d) ∷ quads) = hex 8 (dword a b c d) ++ printed quads

length-printed : (quads : List Quad) → length (printed quads) ≡ length quads * 8
unfolding printed
length-printed [] = refl
length-printed ((a, b, c, d) ∷ quads) = omega (
  arith,
  length-append (hex 8 (dword a b c d)) (printed quads),
  length-hex 8 (dword a b c d),
  length-printed quads,
)

lacks-printed : (quads : List Quad) → lacks b':' (printed quads) ≡ true
unfolding printed lacks
lacks-printed [] = refl
lacks-printed ((a, b, c, d) ∷ quads) =
    lacks-append b':' (hex 8 (dword a b c d)) (printed quads) (lacks-hex 8 (dword a b c d))
      (lacks-printed quads)

take-first : (n : ℕ) (xs ys : List ℕ) → length xs ≡ n → take n (xs ++ ys) ≡ xs
take-first n xs ys e = ap (λ k. take k (xs ++ ys)) (sym e) ∙ take-append xs ys

drop-first : (n : ℕ) (xs ys : List ℕ) → length xs ≡ n → drop n (xs ++ ys) ≡ ys
drop-first n xs ys e = ap (λ k. drop k (xs ++ ys)) (sym e) ∙ drop-append xs ys

address_bytes-printed :
    (quads : List Quad)
    → all_bytes quads ≡ true
    → address_bytes (length quads) (printed quads) ≡ some (bytes_of quads)
unfolding address_bytes printed bytes_of all_bytes
address_bytes-printed [] h = refl
address_bytes-printed ((a, b, c, d) ∷ quads) h =
    let n = dword a b c d in
    let parsed : parse_hex 32 (hex 8 n) ≡ some n =
      parse_hex-hex 32 7 n (ground (arith, h)) (ground (arith, h)) in
    rw
      (
        take-first 8 (hex 8 n) (printed quads) (length-hex 8 n),
        drop-first 8 (hex 8 n) (printed quads) (length-hex 8 n),
        parsed,
        address_bytes-printed quads (ground (arith, h)),
        dword_bytes-dword a b c d (ground (arith, h)) (ground (arith, h)) (ground (arith, h))
            (ground (arith, h)),
      )
      refl

abbrev pub groups_of : Bool → ℕ
groups_of v6 = if v6 then 4 else 1

-- An address and its port are read back.
pub parse_proc_addr-printed :
    (v6 : Bool) (quads : List Quad) (port : ℕ)
    → length quads ≡ groups_of v6
    → all_bytes quads ≡ true
    → port < 65536
    → parse_proc_addr v6 (printed quads ++ (b':' ∷ hex 4 port)) ≡ some (bytes_of quads, port)
unfolding parse_proc_addr parse_cut parse_host
parse_proc_addr-printed v6 quads port l h lt =
    let whole = length-printed quads in
    let known : address_bytes (groups_of v6) (printed quads) ≡ some (bytes_of quads) =
      ap (λ n. address_bytes n (printed quads)) (sym l) ∙ address_bytes-printed quads h in
    let fits : eqb (length (printed quads)) (groups_of v6 * 8) ≡ true = ground (arith, whole, l) in
    rw
      (
        cut-append b':' (printed quads) (hex 4 port) (lacks-printed quads),
        parse_hex-hex 16 3 port (omega arith) (omega arith),
        fits,
        known,
      )
      refl
