-- ===== src/ProcNet/Runs.antt =====
-- Runs of the scan of /proc/net.
use drawbridge.Base.{ℕ, ◌≡◌, refl, true, false, some, List, [], ◌∷◌, map, arith}
use drawbridge.Base.Bytes.{bytes, cut, bytes_beq}
use drawbridge.ProcNet.{
  ProcFile, parse_proc_net, parse_proc_addr, parse_cut, parse_host, parse_hex, hex_value, hex_digit,
  address_bytes, dword_bytes,
}
use drawbridge.ProcNet.RoundTrip.{Quad, all_bytes, bytes_of}
use drawbridge.ProcNet.Listed.{
  Row, row_fields, AreRows, counts, listed, address_of, parse_proc_net-listed,
}

-- 127.0.0.1:8080 as the table has it.
loopback_read : parse_proc_addr false (bytes "0100007F:1F90") ≡ some (127 ∷ 0 ∷ 0 ∷ 1 ∷ [], 8080)
unfolding parse_proc_addr parse_cut parse_host parse_hex hex_value hex_digit address_bytes
    dword_bytes cut
loopback_read = refl

abbrev tcp6_file : ProcFile
tcp6_file = record { proto = bytes "tcp"; v6 = true; listen_only = true }

abbrev row_of : Quad → List ℕ → ℕ → Row
row_of third state port = record {
  quads = (0, 0, 0, 0) ∷ (0, 0, 0, 0) ∷ third ∷ (127, 0, 0, 1) ∷ [];
  port = port;
  slot = bytes "0:";
  remote = bytes "00000000000000000000000000000000:0000";
  state = state;
  others = [];
}

-- A listener at ::ffff:127.0.0.1, one at ::7f00:1, and a connection that is established.
abbrev rows : List Row
rows =
    row_of (0, 0, 255, 255) (bytes "0A") 8080
    ∷ row_of (0, 0, 0, 0) (bytes "0A") 9090
    ∷ row_of (0, 0, 255, 255) (bytes "01") 8080
    ∷ []

rows-AreRows : AreRows true rows
unfolding AreRows all_bytes
rows-AreRows =
    ((refl, refl, omega arith), ((refl, refl, omega arith), ((refl, refl, omega arith), tt)))

parse_proc_net-listed_example :
    parse_proc_net tcp6_file (map row_fields rows)
    ≡ record { proto = bytes "tcp"; port = 8080; addr = 127 ∷ 0 ∷ 0 ∷ 1 ∷ [] }
      ∷ record {
        proto = bytes "tcp";
        port = 9090;
        addr = bytes_of ((0, 0, 0, 0) ∷ (0, 0, 0, 0) ∷ (0, 0, 0, 0) ∷ (127, 0, 0, 1) ∷ []);
      }
      ∷ []
unfolding listed counts bytes_of bytes_beq address_of
parse_proc_net-listed_example = parse_proc_net-listed tcp6_file rows rows-AreRows
