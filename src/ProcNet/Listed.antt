-- ===== src/ProcNet/Listed.antt =====
-- proc.go on a whole table of /proc/net.
use drawbridge.Base.{
  ℕ, ◌≡◌, refl, arith, ◌<◌, Bool, true, not, ◌&&◌, List, [], ◌∷◌, ◌++◌, length, map, eqb,
  if◌then◌else◌, Bool-cases, inl, inr,
}
use drawbridge.Base.Eq.{◌==◌}
use drawbridge.Base.Bytes.{bytes, bytes_eq, bytes_beq}
use drawbridge.ProcNet.{ProcFile, Seed, unmap_bytes, row_seeds, parse_proc_net}
use drawbridge.ProcNet.RoundTrip.{
  Quad, all_bytes, bytes_of, printed, hex, groups_of, parse_proc_addr-printed,
}

-- A socket of the kernel's, and what its line says beside it.
pub record Row : Type 0 where
  pub quads : List Quad
  pub port : ℕ
  pub slot : List ℕ
  pub remote : List ℕ
  pub state : List ℕ
  pub others : List (List ℕ)

unfoldable pub row_fields : Row → List (List ℕ)
row_fields r = r.slot ∷ (printed r.quads ++ (b':' ∷ hex 4 r.port)) ∷ r.remote ∷ r.state ∷ r.others

abbrev pub IsRow : Bool → Row → Type 0
IsRow v6 r = (length r.quads ≡ groups_of v6) × (all_bytes r.quads ≡ true) × (r.port < 65536)

unfoldable pub AreRows : Bool → List Row → Type 0
AreRows v6 [] = Unit {0}
AreRows v6 (r ∷ rows) = IsRow v6 r × AreRows v6 rows

-- A bound socket that the file counts: of the TCP files, one in the state LISTEN.
unfoldable pub counts : ProcFile → Row → Bool
counts f r = not (f.listen_only && not (r.state == bytes "0A")) && not (eqb r.port 0)

abbrev is_quad : ℕ → ℕ → ℕ → ℕ → Quad → Bool
is_quad a b c d (a', b', c', d') = eqb a' a && eqb b' b && eqb c' c && eqb d' d

-- The address of a socket, by its words: an IPv4 address in its IPv6 form is the last one.
unfoldable pub address_of : List Quad → List ℕ
address_of (p ∷ q ∷ r ∷ last ∷ []) =
    if is_quad 0 0 0 0 p && is_quad 0 0 0 0 q && is_quad 0 0 255 255 r
    then bytes_of (last ∷ [])
    else bytes_of (p ∷ q ∷ r ∷ last ∷ [])
address_of quads = bytes_of quads

unmap_bytes-bytes_of :
    (v6 : Bool) (quads : List Quad)
    → length quads ≡ groups_of v6
    → unmap_bytes (bytes_of quads) ≡ address_of quads
unfolding unmap_bytes address_of bytes_of bytes_beq
unmap_bytes-bytes_of v6 [] l = ground (arith, l)
unmap_bytes-bytes_of v6 (p ∷ []) l = refl
unmap_bytes-bytes_of v6 (p ∷ q ∷ []) l = ground (arith, l)
unmap_bytes-bytes_of v6 (p ∷ q ∷ r ∷ []) l = ground (arith, l)
unmap_bytes-bytes_of v6 (p ∷ q ∷ r ∷ last ∷ []) l = ground arith
unmap_bytes-bytes_of v6 (p ∷ q ∷ r ∷ last ∷ x ∷ quads) l = ground (arith, l)

unfoldable pub listed : ProcFile → List Row → List Seed
listed f [] = []
listed f (r ∷ rows) =
    let rest = listed f rows in
    if counts f r
    then record { proto = f.proto; port = r.port; addr = address_of r.quads } ∷ rest
    else rest

-- Whatever sockets the kernel has: the scan of a table finds exactly the listening ones of a TCP
-- file, and all of a UDP file, that have a port, each with its port and its address, the IPv4 one of
-- an address in the form ::ffff:a.b.c.d, in their order.
pub parse_proc_net-listed :
    (f : ProcFile) (rows : List Row)
    → AreRows f.v6 rows
    → parse_proc_net f (map row_fields rows) ≡ listed f rows
unfolding parse_proc_net row_seeds row_fields listed counts AreRows
parse_proc_net-listed f [] h = refl
parse_proc_net-listed f (r ∷ rows) ((l, b, lt), h) =
    let read = parse_proc_addr-printed f.v6 r.quads r.port l b lt in
    let rest = parse_proc_net-listed f rows h in
    elim (Bool-cases (f.listen_only && not (r.state == bytes "0A"))) [
      | inl q ↦ rw q rest
      | inr q ↦ elim (Bool-cases (eqb r.port 0)) [
        | inl z ↦ rw (q, read, z) rest
        | inr z ↦ rw (q, read, z, rest, unmap_bytes-bytes_of f.v6 r.quads l) refl
      ]
    ]
