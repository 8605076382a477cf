-- ===== src/Listen/Prefix.antt =====
-- The part of net/netip that listen.go uses: prefixes, and the tests of an address.
use drawbridge.Base.{
  ℕ, suc, ◌-◌, ◌*◌, ◌/◌, ◌%◌, ◌^◌, Bool, true, false, not, ◌&&◌, ◌||◌, eqb, leb, if◌then◌else◌,
}
use drawbridge.MacSync.Listeners.{Addr, no_addr, ip4, ip6, addr_beq, is4}

-- 0, 32 or 128.
abbrev pub bit_len : Addr → ℕ
bit_len no_addr = 0
bit_len (ip4 n) = 32
bit_len (ip6 n z) = 128

-- netip.Prefix; 0 for an invalid one.
pub record Prefix : Type 0 where
  pub addr : Addr
  pub bits_plus_one : ℕ

abbrev pub is_valid : Prefix → Bool
is_valid p = not (eqb p.bits_plus_one 0)

abbrev pub no_prefix : Prefix
no_prefix = record { addr = no_addr; bits_plus_one = 0 }

abbrev pub prefix_beq : Prefix → Prefix → Bool
prefix_beq p q = addr_beq p.addr q.addr && eqb p.bits_plus_one q.bits_plus_one

abbrev pub without_zone : Addr → Addr
without_zone no_addr = no_addr
without_zone (ip4 n) = ip4 n
without_zone (ip6 n z) = ip6 n ""

abbrev pub is_zero : Addr → Bool
is_zero no_addr = true
is_zero (ip4 n) = false
is_zero (ip6 n z) = false

-- PrefixFrom
unfoldable pub prefix_from : Addr → ℕ → Prefix
prefix_from ip bits = record {
  addr = without_zone ip;
  bits_plus_one = if not (is_zero ip) && leb bits (bit_len ip) then suc bits else 0;
}

abbrev pub low_bits_cleared : ℕ → Addr → Addr
low_bits_cleared bits no_addr = no_addr
low_bits_cleared bits (ip4 n) = let unit = 2 ^ (32 - bits) in ip4 (n / unit * unit)
low_bits_cleared bits (ip6 n z) = let unit = 2 ^ (128 - bits) in ip6 (n / unit * unit) z

-- Prefix.Masked
unfoldable pub masked : Prefix → Prefix
masked p =
    if is_valid p
    then record p { addr = low_bits_cleared (p.bits_plus_one - 1) p.addr }
    else no_prefix

-- Prefix.Contains
unfoldable pub prefix_contains : Prefix → Addr → Bool
prefix_contains p no_addr = false
prefix_contains p (ip4 n) =
    is_valid p
    && is4 p.addr
    && addr_beq (low_bits_cleared (p.bits_plus_one - 1) p.addr)
        (low_bits_cleared (p.bits_plus_one - 1) (ip4 n))
prefix_contains p (ip6 n z) =
    is_valid p
    && eqb (bit_len p.addr) 128
    && addr_beq (ip6 n z) (ip6 n "")
    && addr_beq (low_bits_cleared (p.bits_plus_one - 1) p.addr)
        (low_bits_cleared (p.bits_plus_one - 1) (ip6 n z))

-- Addr.Next, the zero Addr after the last one.
unfoldable pub next : Addr → Addr
next no_addr = no_addr
next (ip4 n) = if eqb (suc n) (2 ^ 32) then no_addr else ip4 (suc n)
next (ip6 n z) = if eqb (suc n) (2 ^ 128) then no_addr else ip6 (suc n) z

abbrev pub is_loopback : Addr → Bool
is_loopback no_addr = false
is_loopback (ip4 n) = eqb (n / 2 ^ 24) 127
is_loopback (ip6 n z) = eqb n 1 || eqb (n / 2 ^ 24) 0xffff7f

-- 10.0.0.0/8, 172.16.0.0/12, 192.168.0.0/16 and fc00::/7.
abbrev pub v4_private : ℕ → Bool
v4_private n = eqb (n / 2 ^ 24) 10 || eqb (n / 2 ^ 20) 0xac1 || eqb (n / 2 ^ 16) 0xc0a8

abbrev pub is_private : Addr → Bool
is_private no_addr = false
is_private (ip4 n) = v4_private n
is_private (ip6 n z) =
    eqb (n / 2 ^ 121) 0x7e || (eqb (n / 2 ^ 32) 0xffff && v4_private (n % 2 ^ 32))

-- 169.254.0.0/16 and fe80::/10.
abbrev pub is_link_local_unicast : Addr → Bool
is_link_local_unicast no_addr = false
is_link_local_unicast (ip4 n) = eqb (n / 2 ^ 16) 0xa9fe
is_link_local_unicast (ip6 n z) = eqb (n / 2 ^ 118) 0x3fa || eqb (n / 2 ^ 16) 0xffffa9fe
