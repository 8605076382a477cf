-- ===== src/MacSync/Listeners.antt =====
-- macsync.go's Listener, and the part of net/netip's Addr that the package tests.
use drawbridge.Base.{
  ℕ, String, ◌≡◌, ◌↔◌, Bool, true, false, ◌&&◌, ◌||◌, not, eqb, if◌then◌else◌, ◌/◌, ◌%◌, ◌^◌, arith,
  eq_iff,
}
use drawbridge.Base.Eq.{Comparable, ◌==◌, string_eq, nat_eq}

-- netip.Addr: the zero Addr, an IPv4 address as its 32 bits, an IPv6 address as its 128 bits with its
-- zone.
pub data Addr : Type 0 where
  no_addr : Addr
  ip4 : ℕ → Addr
  ip6 : ℕ → String → Addr

abbrev pub addr_beq : Addr → Addr → Bool
addr_beq no_addr no_addr = true
addr_beq no_addr (ip4 n) = false
addr_beq no_addr (ip6 n z) = false
addr_beq (ip4 n) no_addr = false
addr_beq (ip4 n) (ip4 m) = eqb n m
addr_beq (ip4 n) (ip6 m z) = false
addr_beq (ip6 n z) no_addr = false
addr_beq (ip6 n z) (ip4 m) = false
addr_beq (ip6 n z) (ip6 m w) = eqb n m && z == w

pub addr_beq_iff : (a b : Addr) → (addr_beq a b ≡ true) ↔ (a ≡ b)
addr_beq_iff no_addr no_addr = ground arith
addr_beq_iff no_addr (ip4 n) = ground arith
addr_beq_iff no_addr (ip6 n z) = ground arith
addr_beq_iff (ip4 n) no_addr = ground arith
addr_beq_iff (ip4 n) (ip4 m) = ground arith
addr_beq_iff (ip4 n) (ip6 m z) = ground arith
addr_beq_iff (ip6 n z) no_addr = ground arith
addr_beq_iff (ip6 n z) (ip4 m) = ground arith
addr_beq_iff (ip6 n z) (ip6 m w) = ground (arith, eq_iff z w)

abbrev pub is4 : Addr → Bool
is4 no_addr = false
is4 (ip4 n) = true
is4 (ip6 n z) = false

abbrev pub is6 : Addr → Bool
is6 no_addr = false
is6 (ip4 n) = false
is6 (ip6 n z) = true

-- The upper 96 bits of ::ffff:0:0/96.
abbrev pub is_4in6 : Addr → Bool
is_4in6 no_addr = false
is_4in6 (ip4 n) = false
is_4in6 (ip6 n z) = eqb (n / 2 ^ 32) 0xffff

unfoldable pub unmap : Addr → Addr
unmap no_addr = no_addr
unmap (ip4 n) = ip4 n
unmap (ip6 n z) = if eqb (n / 2 ^ 32) 0xffff then ip4 (n % 2 ^ 32) else ip6 n z

abbrev pub v4_loopback : Addr
v4_loopback = ip4 0x7f000001

abbrev pub v4_any : Addr
v4_any = ip4 0

abbrev pub v6_any : Addr
v6_any = ip6 0 ""

abbrev pub is_unspecified : Addr → Bool
is_unspecified a = addr_beq a v4_any || addr_beq a v6_any

pub record Listener : Type 0 where
  pub proto : String
  pub port : ℕ
  pub addr : Addr
  pub v6_only : Bool

abbrev bool_beq : Bool → Bool → Bool
bool_beq a b = if a then b else not b

bool_beq_iff : (a b : Bool) → (bool_beq a b ≡ true) ↔ (a ≡ b)
bool_beq_iff a b = ground arith

abbrev pub listener_beq : Listener → Listener → Bool
listener_beq a b =
    a.proto == b.proto && a.port == b.port && addr_beq a.addr b.addr && bool_beq a.v6_only b.v6_only

pub listener_beq_iff : (a b : Listener) → (listener_beq a b ≡ true) ↔ (a ≡ b)
listener_beq_iff a b =
    ground
      (arith, eq_iff a.proto b.proto, addr_beq_iff a.addr b.addr, bool_beq_iff a.v6_only b.v6_only)

instance abbrev pub listener_eq : Comparable Listener
listener_eq = record { equal = listener_beq; equal_iff = listener_beq_iff }
