-- ===== src/Endpoint/RoundTrip.antt =====
-- Parse and String: what is parsed is printed in a spelling that parses to the same.
use mathlib.Core.Path.{subst}
use drawbridge.Base.{
  ℕ, ◌≡◌, refl, ap, ◌∙◌, true, Option, none, some, List, [], ◌∷◌, ◌++◌, if◌then◌else◌, is_some,
  arith, inl, inr, Bool-cases,
}
use drawbridge.Base.Eq.{◌==◌}
use drawbridge.Base.Bytes.{bytes, bytes_eq, bytes_beq, has_prefix, cut, cut-append}
use drawbridge.Base.Numerals.{parse_uint}
use drawbridge.Endpoint.HostPort.{cut_text, split_host_port, join_host_port}
use drawbridge.Endpoint.{
  Endpoint, scheme_tcp, scheme_unix, scheme_vsock, text_of, parse_tcp, parse_vsock, parse_scheme,
  schemed, parse,
}
use drawbridge.Endpoint.Canonical.{
  Unbracketed, parse_uint-lacks, join-split, split_host_port-Unbracketed,
}

abbrev pub Canonical : Endpoint → Type 0
Canonical e = parse (text_of e) ≡ some e

tcp_text :
    (addr : List ℕ)
    → parse (text_of (record { scheme = scheme_tcp; addr = addr }))
      ≡ parse_tcp (split_host_port addr)
unfolding parse text_of cut_text has_prefix parse_scheme bytes_beq
tcp_text addr = refl

unix_text :
    (addr : List ℕ)
    → parse (text_of (record { scheme = scheme_unix; addr = addr })) ≡ (
        if has_prefix (bytes "/") addr
        then some (record { scheme = scheme_unix; addr = addr })
        else none)
unfolding parse text_of cut_text has_prefix parse_scheme bytes_beq
unix_text addr = refl

vsock_text :
    (addr : List ℕ)
    → parse (text_of (record { scheme = scheme_vsock; addr = addr })) ≡ parse_vsock (cut b':' addr)
unfolding parse text_of cut_text has_prefix parse_scheme bytes_beq
vsock_text addr = refl

tcp-Canonical :
    (host port : List ℕ)
    → Unbracketed host
    → is_some (parse_uint 16 port) ≡ true
    → Canonical (record { scheme = scheme_tcp; addr = join_host_port host port })
tcp-Canonical host port u v =
    let no_byte = λ (c : ℕ). parse_uint-lacks 16 c port in
    tcp_text (join_host_port host port)
    ∙ ap parse_tcp
        (join-split host port u (no_byte b':' refl v) (no_byte b'[' refl v) (no_byte b']' refl v))
    ∙ (unfold parse_tcp in rw v refl)

some_inj : (x y : Endpoint) → some x ≡ some y → x ≡ y
some_inj x y h = ground (arith, h)

parse_tcp-Canonical :
    (o : Option (List ℕ × List ℕ)) (e : Endpoint)
    → ((host port : List ℕ) → o ≡ some (host, port) → Unbracketed host)
    → parse_tcp o ≡ some e
    → Canonical e
unfolding parse_tcp
parse_tcp-Canonical none e u h = absurd (ground (arith, h))
parse_tcp-Canonical (some (host, port)) e u h = elim (Bool-cases (is_some (parse_uint 16 port))) [
  | inl v ↦
      subst Canonical (some_inj _ _ (rw v at h)) (tcp-Canonical host port (u host port refl) v)
  | inr v ↦ absurd (ground (arith, v, h))
]

vsock-Canonical :
    (cid port : List ℕ)
    → is_some (parse_uint 32 cid) ≡ true
    → is_some (parse_uint 16 port) ≡ true
    → Canonical (record { scheme = scheme_vsock; addr = cid ++ b':' ∷ port })
vsock-Canonical cid port c v =
    vsock_text (cid ++ b':' ∷ port)
    ∙ ap parse_vsock (cut-append b':' cid port (parse_uint-lacks 32 b':' cid refl c))
    ∙ (unfold parse_vsock in rw c (rw v refl))

parse_vsock-Canonical :
    (o : Option (List ℕ × List ℕ)) (e : Endpoint) → parse_vsock o ≡ some e → Canonical e
unfolding parse_vsock
parse_vsock-Canonical none e h = absurd (ground (arith, h))
parse_vsock-Canonical (some (cid, port)) e h = elim (Bool-cases (is_some (parse_uint 32 cid))) [
  | inl c ↦ elim (Bool-cases (is_some (parse_uint 16 port))) [
    | inl v ↦ subst Canonical (some_inj _ _ (rw v at (rw c at h))) (vsock-Canonical cid port c v)
    | inr v ↦ absurd (ground (arith, c, v, h))
  ]
  | inr c ↦ absurd (ground (arith, c, h))
]

unix-Canonical :
    (addr : List ℕ) (e : Endpoint)
    → (if has_prefix (bytes "/") addr
        then some (record { scheme = scheme_unix; addr = addr })
        else none)
      ≡ some e
    → Canonical e
unix-Canonical addr e h = elim (Bool-cases (has_prefix (bytes "/") addr)) [
  | inl s ↦ subst Canonical (some_inj _ _ (rw s at h)) (unix_text addr ∙ rw s refl)
  | inr s ↦ absurd (ground (arith, s, h))
]

parse_scheme-Canonical :
    (p : List ℕ × List ℕ) (e : Endpoint) → parse_scheme p ≡ some e → Canonical e
unfolding parse_scheme
parse_scheme-Canonical (scheme, addr) e h = elim (Bool-cases (scheme == scheme_tcp)) [
  | inl a ↦
      parse_tcp-Canonical (split_host_port addr) e (split_host_port-Unbracketed addr) (rw a at h)
  | inr a ↦ elim (Bool-cases (scheme == scheme_unix)) [
    | inl b ↦ unix-Canonical addr e (rw b at (rw a at h))
    | inr b ↦ elim (Bool-cases (scheme == scheme_vsock)) [
      | inl c ↦ parse_vsock-Canonical (cut b':' addr) e (rw c at (rw b at (rw a at h)))
      | inr c ↦ absurd (ground (arith, a, b, c, h))
    ]
  ]
]

-- What Parse makes of a text is canonical: its String is read back as the same endpoint, whether the
-- text named its scheme or not, and whether its host stood in brackets or not.
pub parse-text_of : (s : List ℕ) (e : Endpoint) → parse s ≡ some e → parse (text_of e) ≡ some e
unfolding parse
parse-text_of [] e h = absurd (ground (arith, h))
parse-text_of (c ∷ s) e h =
    parse_scheme-Canonical (schemed (c ∷ s) (cut_text (bytes "://") (c ∷ s))) e h
