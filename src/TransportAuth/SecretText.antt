-- ===== src/TransportAuth/SecretText.antt =====
-- The round trip of transportauth.go's secret file.
use drawbridge.Base.{
  ℕ, zero, suc, ◌*◌, ◌/◌, ◌%◌, ◌≤◌, ◌<◌, ◌≡◌, refl, ap, ◌∙◌, Option, none, some, List, [], ◌∷◌,
  ◌++◌, arith, eqb, length, length-append, Option-cases, Bool-cases, inl, inr,
}
use mathlib.Core.List.{reverse, reverse-cons, reverse-append, reverse-reverse}
use native.Mathlib.Numerals.{add-one}
use drawbridge.TransportAuth.Frame.{secret_len}
use drawbridge.TransportAuth.Secret.{
  hex_digit, hex_encode, hex_value, hex_decode, first_space, last_space, trim_while, trim_end,
  trim_space, format, parse,
}

abbrev pub All {ℓ κ} : {A : Type ℓ} → (A → Type κ) → List A → Type κ
All P [] = Unit
All P (x ∷ xs) = P x × All P xs

abbrev pub IsByte : ℕ → Type 0
IsByte b = b < 256

-- Neither white space nor part of a white space character.
abbrev Visible : ℕ → Type 0
Visible c = (33 ≤ c) × (c < 127)

hex_digit-Visible : (n : ℕ) → n < 16 → Visible (hex_digit n)
unfolding hex_digit
hex_digit-Visible n h = ground arith

hex_value-hex_digit : (n : ℕ) → n < 16 → hex_value (hex_digit n) ≡ some n
unfolding hex_value hex_digit
hex_value-hex_digit n h = ground arith

hex_encode-Visible : (bs : List ℕ) → All IsByte bs → All Visible (hex_encode bs)
unfolding hex_encode
hex_encode-Visible [] h = tt
hex_encode-Visible (b ∷ bs) h = (
  hex_digit-Visible (b / 16) (omega arith),
  (hex_digit-Visible (b % 16) (omega arith), hex_encode-Visible bs h.1),
)

length-hex_encode : (bs : List ℕ) → length (hex_encode bs) ≡ 2 * length bs
unfolding hex_encode
length-hex_encode [] = refl
length-hex_encode (b ∷ bs) = omega (arith, length-hex_encode bs)

hex_decode-hex_encode : (bs : List ℕ) → All IsByte bs → hex_decode (hex_encode bs) ≡ some bs
unfolding hex_decode hex_encode
hex_decode-hex_encode [] h = refl
hex_decode-hex_encode (b ∷ bs) h = ground (
  arith,
  hex_value-hex_digit (b / 16) (omega arith),
  hex_value-hex_digit (b % 16) (omega arith),
  hex_decode-hex_encode bs h.1,
)

All-append : (xs ys : List ℕ) → All Visible xs → All Visible ys → All Visible (xs ++ ys)
All-append [] ys h k = k
All-append (x ∷ xs) ys h k = (h.0, All-append xs ys h.1 k)

All-reverse : (xs : List ℕ) → All Visible xs → All Visible (reverse xs)
All-reverse [] h = tt
All-reverse (x ∷ xs) h =
    rw (reverse-cons x xs) (All-append (reverse xs) (x ∷ []) (All-reverse xs h.1) (h.0, tt))

first_space-Visible : (x : ℕ) (xs : List ℕ) → Visible x → first_space (x ∷ xs) ≡ 0
unfolding first_space
first_space-Visible x xs h = ground arith

last_space-Visible : (xs : List ℕ) → All Visible xs → last_space xs ≡ 0
unfolding last_space
last_space-Visible [] h = refl
last_space-Visible (x ∷ xs) h = ground arith

trim_while_none :
    (width : List ℕ → ℕ) (rounds : ℕ) (cs : List ℕ) → width cs ≡ 0 → trim_while width rounds cs ≡ cs
unfolding trim_while
trim_while_none width zero cs h = refl
trim_while_none width (suc rounds) cs h = ground arith

trim_end-newline : (cs : List ℕ) → All Visible cs → trim_end (cs ++ b'\n' ∷ []) ≡ cs
unfolding trim_while last_space
trim_end-newline cs h =
    let tail =
      trim_while_none last_space (length cs) (reverse cs)
        (unfold last_space in last_space-Visible (reverse cs) (All-reverse cs h)) in
    rw (reverse-append cs (b'\n' ∷ []), length-append cs (b'\n' ∷ []), add-one (length cs))
      (ap reverse tail ∙ reverse-reverse cs)

trim_space-newline :
    (x : ℕ) (cs : List ℕ) → All Visible (x ∷ cs) → trim_space (x ∷ cs ++ b'\n' ∷ []) ≡ x ∷ cs
unfolding trim_space
trim_space-newline x cs h =
    rw (trim_while_none first_space _ (x ∷ cs ++ b'\n' ∷ []) (first_space-Visible x _ h.0))
      (trim_end-newline (x ∷ cs) h)

-- The file that is written for a secret reads back as that secret, for every 32 bytes.
pub parse-format : (s : List ℕ) → length s ≡ 32 → All IsByte s → parse (format s) ≡ some s
unfolding parse format hex_encode
parse-format [] n h = absurd (omega arith)
parse-format (b ∷ bs) n h =
    rw
      (trim_space-newline (hex_digit (b / 16)) (hex_digit (b % 16) ∷ hex_encode bs)
        (hex_encode-Visible (b ∷ bs) h))
      (ground (arith, n, length-hex_encode bs, hex_decode-hex_encode (b ∷ bs) h))

hex_value-lt : (c v : ℕ) → hex_value c ≡ some v → v < 16
unfolding hex_value
hex_value-lt c v h = ground arith

-- What a hex text of `n` characters decodes to: nothing, or bytes, half as many.
abbrev Decoded : ℕ → Option (List ℕ) → Type 0
Decoded n none = Unit {0}
Decoded n (some bs) = All IsByte bs × (2 * length bs ≡ n)

hex_decode-Decoded : (cs : List ℕ) → Decoded (length cs) (hex_decode cs)
unfolding hex_decode
hex_decode-Decoded [] = (tt, refl)
hex_decode-Decoded (c ∷ []) = tt
hex_decode-Decoded (c ∷ d ∷ cs) =
    let ih = hex_decode-Decoded cs in
    elim (Option-cases (hex_value c)) [
      | inl q ↦ rw (q, hex_decode) tt
      | inr (hi, q) ↦ elim (Option-cases (hex_value d)) [
        | inl r ↦ rw (q, r, hex_decode) tt
        | inr (lo, r) ↦ elim (Option-cases (hex_decode cs)) [
          | inl u ↦ rw (q, r, u, hex_decode) tt
          | inr (bs, u) ↦
              let known : Decoded (length cs) (some bs) = rw u at ih in
              rw (q, r, u, hex_decode)
                (
                  (omega (arith, hex_value-lt c hi q, hex_value-lt d lo r), known.0),
                  omega (arith, known.1),
                )
        ]
      ]
    ]

-- Whatever parses, in whatever case and white space around it, is a secret of exactly 32 bytes.
pub parse-IsByte : (b s : List ℕ) → parse b ≡ some s → (length s ≡ 32) × All IsByte s
unfolding parse
parse-IsByte b s h =
    let d = hex_decode-Decoded (trim_space b) in
    elim (Bool-cases (eqb (length (trim_space b)) (2 * secret_len))) [
      | inl q ↦
          let e : hex_decode (trim_space b) ≡ some s = rw q at h in
          let known : Decoded (length (trim_space b)) (some s) = rw e at d in
          (ground (arith, known.1), known.0)
      | inr q ↦ absurd (let e : none ≡ some s = rw q at h in cc)
    ]
