-- ===== src/Listen/Vznat.antt =====
-- listen.go: the guest's address on the Mac's network. What the machine says of its interfaces is an
-- argument.
use drawbridge.Base.{
  ℕ, ◌-◌, String, Bool, false, not, ◌&&◌, ◌||◌, Option, none, some, List, [], ◌∷◌, ◌++◌, leb, ltb,
  if◌then◌else◌,
}
use drawbridge.MacSync.Listeners.{Addr, ip4, addr_beq, is4, unmap}
use drawbridge.Listen.Prefix.{
  Prefix, is_valid, no_prefix, is_zero, without_zone, prefix_from, masked, prefix_contains, next,
  is_loopback, is_private, is_link_local_unicast,
}

-- 192.168.5.0/24
abbrev pub usernet : Prefix
usernet = record { addr = ip4 0xc0a80500; bits_plus_one = 25 }

-- ifaceAddr
pub record IfaceAddr : Type 0 where
  pub index : ℕ
  pub name : String
  pub prefix : Prefix

unfoldable pub first_host : Prefix → Option Addr
first_host p =
    let m = masked p in
    if not (is_valid m) then none else if is_zero (next m.addr) then none else some (next m.addr)

abbrev is_first_host : Option Addr → Addr → Bool
is_first_host none ip = false
is_first_host (some h) ip = addr_beq ip h

-- An address that pickVZNAT considers.
unfoldable pub is_candidate : IfaceAddr → Bool
is_candidate a =
    let ip = unmap a.prefix.addr in
    if not (is_valid a.prefix)
    then false
    else if not (is4 ip) || not (is_private ip) || is_loopback ip || is_link_local_unicast ip
    then false
    else if prefix_contains usernet ip
    then false
    else not (is_first_host (first_host a.prefix) ip)

abbrev pub unmapped_prefix : IfaceAddr → Prefix
unmapped_prefix a = prefix_from (unmap a.prefix.addr) (a.prefix.bits_plus_one - 1)

-- One round of its loop: the best so far and its index.
unfoldable pub pick_round : IfaceAddr → Prefix × ℕ → Prefix × ℕ
pick_round a (best, best_idx) =
    if is_candidate a && (not (is_valid best) || ltb a.index best_idx)
    then (unmapped_prefix a, a.index)
    else (best, best_idx)

unfoldable pub pick_loop : List IfaceAddr → Prefix × ℕ → Prefix × ℕ
pick_loop [] best = best
pick_loop (a ∷ as') best = pick_loop as' (pick_round a best)

-- pickVZNAT
unfoldable pub pick_vznat : List IfaceAddr → Prefix × Bool
pick_vznat addrs = let (best, best_idx) = pick_loop addrs (no_prefix, 0) in (best, is_valid best)

-- An address of an interface: what AddrFromSlice and Mask.Size give for a *net.IPNet, if it is one and
-- its address has 4 or 16 bytes.
pub record IfaceNet : Type 0 where
  pub ip : Addr
  pub ones : ℕ

-- An interface; `nets` is none where Addrs fails.
pub record Iface : Type 0 where
  pub index : ℕ
  pub name : String
  pub is_loop : Bool
  pub is_up : Bool
  pub nets : Option (List (Option IfaceNet))

-- The prefix of an unmapped address; a 4-in-6 mask counts from bit 96, and below it is invalid.
unfoldable pub net_prefix : Addr → ℕ → Prefix
net_prefix ip ones =
    if is4 ip && ltb 32 ones
    then (if leb 96 ones
        then prefix_from ip (ones - 96)
        else record { addr = without_zone ip; bits_plus_one = 0 })
    else prefix_from ip ones

unfoldable pub net_addrs : Iface → List (Option IfaceNet) → List IfaceAddr
net_addrs i [] = []
net_addrs i (none ∷ ns) = net_addrs i ns
net_addrs i (some n ∷ ns) =
    record { index = i.index; name = i.name; prefix = net_prefix (unmap n.ip) n.ones }
    ∷ net_addrs i ns

unfoldable pub iface_addrs : Iface → Option (List (Option IfaceNet)) → List IfaceAddr
iface_addrs i none = []
iface_addrs i (some ns) = if i.is_loop || not i.is_up then [] else net_addrs i ns

unfoldable pub candidates : List Iface → List IfaceAddr
candidates [] = []
candidates (i ∷ is) = iface_addrs i i.nets ++ candidates is

found_in : Option (List Iface) → Prefix × Bool
found_in none = (no_prefix, false)
found_in (some ifs) = pick_vznat (candidates ifs)

-- vznatPrefix, with what net.Interfaces returns, if it does.
unfoldable pub vznat_prefix : Option (List Iface) → Prefix × Bool
unfolding found_in
vznat_prefix ifs = found_in ifs
