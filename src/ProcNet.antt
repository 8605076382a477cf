-- ===== src/ProcNet.antt =====
-- internal/agent/proc.go: the listeners that /proc/net tells, which seed the hub of tracker.go.
use drawbridge.Base.{
  ℕ, zero, suc, ◌+◌, ◌-◌, ◌*◌, ◌/◌, ◌%◌, ◌^◌, Bool, true, false, not, ◌&&◌, ◌||◌, Option, none,
  some, List, [], ◌∷◌, ◌++◌, length, take, drop, get_or, ltb, leb, eqb, if◌then◌else◌,
}
use drawbridge.Base.Eq.{◌==◌}
use drawbridge.Base.Bytes.{bytes, bytes_eq, cut}
pub mod RoundTrip
pub mod Listed
pub mod Runs

-- One digit of base 16, of either case.
unfoldable pub hex_digit : ℕ → Option ℕ
hex_digit c =
    if leb b'0' c && leb c b'9'
    then some (c - b'0')
    else if leb b'a' c && leb c b'f'
    then some (c - b'a' + 10)
    else if leb b'A' c && leb c b'F'
    then some (c - b'A' + 10)
    else none

abbrev pub with_digit : (ℕ → Option ℕ) → ℕ → Option ℕ → Option ℕ
with_digit rest acc none = none
with_digit rest acc (some d) = rest (acc * 16 + d)

unfoldable pub hex_value : List ℕ → ℕ → Option ℕ
hex_value [] acc = some acc
hex_value (c ∷ cs) acc = with_digit (hex_value cs) acc (hex_digit c)

abbrev pub below_bits : ℕ → Option ℕ → Option ℕ
below_bits bits none = none
below_bits bits (some v) = if ltb v (2 ^ bits) then some v else none

-- strconv.ParseUint(s, 16, bits)
unfoldable pub parse_hex : ℕ → List ℕ → Option ℕ
parse_hex bits [] = none
parse_hex bits (c ∷ cs) = below_bits bits (hex_value (c ∷ cs) 0)

-- binary.LittleEndian.PutUint32
unfoldable pub dword_bytes : ℕ → List ℕ
dword_bytes dw = dw % 256 ∷ dw / 256 % 256 ∷ dw / 65536 % 256 ∷ dw / 16777216 % 256 ∷ []

abbrev pub with_dword : Option ℕ → Option (List ℕ) → Option (List ℕ)
with_dword none rest = none
with_dword (some dw) none = none
with_dword (some dw) (some rest) = some (dword_bytes dw ++ rest)

-- The loop over the groups of eight digits.
unfoldable pub address_bytes : ℕ → List ℕ → Option (List ℕ)
address_bytes zero host = some []
address_bytes (suc n) host = with_dword (parse_hex 32 (take 8 host)) (address_bytes n (drop 8 host))

abbrev pub with_port : Option (List ℕ) → ℕ → Option (List ℕ × ℕ)
with_port none port = none
with_port (some addr) port = some (addr, port)

unfoldable pub parse_host : Bool → List ℕ → Option ℕ → Option (List ℕ × ℕ)
parse_host v6 host none = none
parse_host v6 host (some port) =
    let groups = if v6 then 4 else 1 in
    if eqb (length host) (groups * 8) then with_port (address_bytes groups host) port else none

unfoldable pub parse_cut : Bool → Option (List ℕ × List ℕ) → Option (List ℕ × ℕ)
parse_cut v6 none = none
parse_cut v6 (some (host, port_hex)) = parse_host v6 host (parse_hex 16 port_hex)

-- The address as its four or sixteen bytes.
unfoldable pub parse_proc_addr : Bool → List ℕ → Option (List ℕ × ℕ)
parse_proc_addr v6 s = parse_cut v6 (cut b':' s)

pub record ProcFile : Type 0 where
  pub proto : List ℕ
  pub v6 : Bool
  pub listen_only : Bool

pub record Seed : Type 0 where
  pub proto : List ℕ
  pub port : ℕ
  pub addr : List ℕ

-- ::ffff:0:0/96
abbrev pub mapped_prefix : List ℕ
mapped_prefix = 0 ∷ 0 ∷ 0 ∷ 0 ∷ 0 ∷ 0 ∷ 0 ∷ 0 ∷ 0 ∷ 0 ∷ 255 ∷ 255 ∷ []

-- netip.Addr.Unmap, on the bytes of an address: those of an IPv4 address in its IPv6 form lose the
-- prefix.
unfoldable pub unmap_bytes : List ℕ → List ℕ
unmap_bytes addr =
    if eqb (length addr) 16 && take 12 addr == mapped_prefix then drop 12 addr else addr

abbrev pub seeded : ProcFile → Option (List ℕ × ℕ) → List Seed → List Seed
seeded f none rest = rest
seeded f (some (addr, port)) rest =
    if eqb port 0
    then rest
    else record { proto = f.proto; port = port; addr = unmap_bytes addr } ∷ rest

-- A row's fields; one that has fewer than four is passed over.
unfoldable pub row_seeds : ProcFile → List (List ℕ) → List Seed → List Seed
row_seeds f (slot ∷ local ∷ remote ∷ state ∷ others) rest =
    if f.listen_only && not (state == bytes "0A")
    then rest
    else seeded f (parse_proc_addr f.v6 local) rest
row_seeds f _ rest = rest

-- `rows` are what strings.Fields makes of each line after the header.
unfoldable pub parse_proc_net : ProcFile → List (List (List ℕ)) → List Seed
parse_proc_net f [] = []
parse_proc_net f (row ∷ rows) = row_seeds f row (parse_proc_net f rows)
