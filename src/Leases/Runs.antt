-- ===== src/Leases/Runs.antt =====
-- The lease file's theorem at a concrete file.
use drawbridge.Base.{
  true, ℕ, ◌≤◌, ◌≡◌, refl, Option, none, some, List, [], ◌∷◌, length, if◌then◌else◌,
}
use drawbridge.Base.Eq.{◌==◌, contains}
use drawbridge.Base.Bytes.{bytes, bytes_eq, bytes_beq, cut, split, join, has_prefix}
use drawbridge.MacSync.Listeners.{Addr, ip4, unmap}
use drawbridge.Listen.Prefix.{no_prefix, prefix_contains}
use drawbridge.TransportAuth.Secret.{
  trim_space, trim_while, first_space, last_space, hex_value, hex_encode, hex_digit,
}
use drawbridge.Leases.Records.{
  parse_leases, read_lines, read_line, with_pair, with_field, parse_lease_time, parse_int_or_zero,
  based_value, normalize_hw_addr, normalized, after_type, octets, octet,
}
use drawbridge.Leases.{
  Target, usable_guest_ipv4, in_subnet, sift, sort_leases, distinct_ips, picked, pinned_candidates,
  pin_of, lease_candidates_from,
}
use drawbridge.Leases.Resolve.{resolve_target, Justified, resolve_target-Justified}
use drawbridge.Leases.Trusted.{Trusted, lease_candidates_from-Trusted}

-- A squatter on the name with a later lease, and the machine.
abbrev lease_file : List ℕ
lease_file =
    bytes
      "{\n\tname=lima-dev\n\tip_address=192.168.64.9\n\thw_address=1,2:0:0:0:0:1\n\tlease=0x6a\n}\n{\n\tname=lima-dev\n\tip_address=192.168.64.5\n\thw_address=1,52:55:55:a5:de:2\n\tlease=0x69\n}\n"

abbrev dev : Target
dev = record {
  vm = bytes "dev";
  provider = bytes "colima";
  lease_name = [];
  subnet = no_prefix;
  hw_addr = bytes "52:55:55:A5:DE:02";
}

-- Stands in for netip.ParseAddr on the two addresses.
abbrev parse_two : List ℕ → Option Addr
parse_two s =
    if s == bytes "192.168.64.5"
    then some (ip4 0xc0a84005)
    else if s == bytes "192.168.64.9"
    then some (ip4 0xc0a84009)
    else none

abbrev machine_ip : List ℕ
machine_ip = bytes "192.168.64.5"

finds_machine : (lease_candidates_from parse_two lease_file dev).0 ≡ machine_ip ∷ []
unfolding lease_candidates_from pinned_candidates picked sift sort_leases distinct_ips parse_leases
    read_lines read_line with_pair with_field parse_lease_time parse_int_or_zero based_value
    normalize_hw_addr normalized after_type octets octet trim_space trim_while first_space
    last_space hex_value hex_encode hex_digit bytes_beq cut split join has_prefix usable_guest_ipv4
    in_subnet prefix_contains unmap contains
finds_machine = refl

lease_candidates_from-Trusted_example :
    (length (lease_candidates_from parse_two lease_file dev).0 ≤ 4)
    × Trusted parse_two lease_file dev machine_ip (pin_of dev)
lease_candidates_from-Trusted_example =
    lease_candidates_from-Trusted parse_two lease_file dev machine_ip
      (unfold contains bytes_beq in rw finds_machine refl)

-- limactl does not answer, and all that is dialled does.
resolve_target-Justified_example :
    Justified parse_two
      (λ addr. true)
      none
      (some lease_file)
      dev
      4777
      (resolve_target parse_two (λ addr. true) none (some lease_file) dev 4777)
resolve_target-Justified_example =
    resolve_target-Justified parse_two (λ addr. true) none (some lease_file) dev 4777
