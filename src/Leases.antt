-- ===== src/Leases.antt =====
-- internal/limaaddr/leases.go: the addresses that the Mac's DHCP leases give for a virtual machine.
-- `parse_addr` is netip.ParseAddr.
pub mod Records
pub mod Trusted
pub mod Resolve
pub mod Runs
use drawbridge.Base.{
  ℕ, zero, suc, ◌+◌, Bool, true, false, not, ◌&&◌, ◌||◌, Option, none, some, List, [], ◌∷◌, ◌++◌,
  eqb, leb, ltb, if◌then◌else◌, length, is_some,
}
use drawbridge.Base.Eq.{◌==◌, contains}
use drawbridge.Base.Bytes.{bytes, bytes_eq, has_prefix}
use drawbridge.MacSync.Listeners.{Addr, ip4, is4, unmap}
use drawbridge.TransportAuth.Secret.{trim_space}
use drawbridge.Listen.Prefix.{Prefix, is_valid, masked, prefix_contains, is_private, without_zone}
use drawbridge.MacSync.Listeners.{addr_beq}
use drawbridge.Leases.Records.{Lease, parse_leases, normalize_hw_addr}

abbrev pub max_lease_candidates : ℕ
max_lease_candidates = 4

-- 192.168.64.0/24
abbrev pub default_subnet : Prefix
default_subnet = record { addr = ip4 0xc0a84000; bits_plus_one = 25 }

-- What leaseCandidatesFrom reads of a Target; a field that is empty is unset.
pub record Target : Type 0 where
  pub vm : List ℕ
  pub provider : List ℕ
  pub lease_name : List ℕ
  pub subnet : Prefix
  pub hw_addr : List ℕ

abbrev pub is_blank : List ℕ → Bool
is_blank [] = true
is_blank (c ∷ s) = false

-- Target.leaseName
abbrev pub wanted_name : Target → List ℕ
wanted_name t = if is_blank t.lease_name then bytes "lima-" ++ t.vm else t.lease_name

-- Target.subnet
abbrev pub wanted_subnet : Target → Prefix
wanted_subnet t = if is_valid t.subnet then masked t.subnet else default_subnet

-- The reasons for records that were refused: how many, and the first one.
pub data Note : Type 0 where
  bad_hw_pin : Note
  off_subnet hw_mismatch : ℕ → List ℕ → Note

pub record Sifted : Type 0 where
  pub matched : List Lease
  pub off_net : ℕ
  pub off_net_seen : List ℕ
  pub bad_hw : ℕ
  pub bad_hw_seen : List ℕ

-- describeLeaseHW
unfoldable pub describe_lease_hw : Lease → List ℕ
describe_lease_hw l =
    if is_blank (trim_space l.hw_addr)
    then l.ip ++ bytes " (no hw_address)"
    else l.ip ++ (bytes " (hw_address " ++ (l.hw_addr ++ bytes ")"))

abbrev first_seen : List ℕ → List ℕ → List ℕ
first_seen seen text = if is_blank seen then text else seen

-- What the loop over the records does with one.
abbrev pub off_net_with : Lease → Sifted → Sifted
off_net_with l s = record s {
  off_net = suc s.off_net;
  off_net_seen = first_seen s.off_net_seen l.ip;
}

abbrev pub bad_hw_with : Lease → Sifted → Sifted
bad_hw_with l s = record s {
  bad_hw = suc s.bad_hw;
  bad_hw_seen = first_seen s.bad_hw_seen (describe_lease_hw l);
}

abbrev pub matched_with : Lease → Sifted → Sifted
matched_with l s = record s { matched = s.matched ++ l ∷ [] }

-- got == wantHW, for a record's address that normalizes.
abbrev pub same_hw : List ℕ → Option (List ℕ) → Bool
same_hw want none = false
same_hw want (some got) = got == want

abbrev pub insert_sorted : Lease → List Lease → List Lease
insert_sorted l [] = l ∷ []
insert_sorted l (m ∷ ms) =
    let rest = insert_sorted l ms in if leb m.expiry l.expiry then l ∷ m ∷ ms else m ∷ rest

-- sort.SliceStable, the latest expiry first.
unfoldable pub sort_leases : List Lease → List Lease
sort_leases [] = []
sort_leases (l ∷ ls) = insert_sorted l (sort_leases ls)

-- The loop over the sorted records: `ips` are those found so far.
unfoldable pub distinct_ips : List Lease → List (List ℕ) → List (List ℕ)
distinct_ips [] ips = ips
distinct_ips (l ∷ ls) ips =
    let found = distinct_ips ls (ips ++ l.ip ∷ []) in
    let skipped = distinct_ips ls ips in
    if contains l.ip ips
    then skipped
    else if eqb (length (ips ++ l.ip ∷ [])) max_lease_candidates
    then ips ++ l.ip ∷ []
    else found

abbrev pub notes_of : Sifted → List Note
notes_of s =
    (if eqb s.off_net 0 then [] else off_subnet s.off_net s.off_net_seen ∷ [])
    ++ (if eqb s.bad_hw 0 then [] else hw_mismatch s.bad_hw s.bad_hw_seen ∷ [])

abbrev pub nothing_yet : Sifted
nothing_yet = record { matched = []; off_net = 0; off_net_seen = []; bad_hw = 0; bad_hw_seen = [] }

abbrev has_no_zone : Addr → Bool
has_no_zone a = addr_beq a (without_zone a)

-- The hardware address that is pinned: `none` where none is, `some none` where it is no address.
abbrev pub pin_of : Target → Option (Option (List ℕ))
pin_of t = if is_blank t.hw_addr then none else some (normalize_hw_addr t.hw_addr)

unfoldable pub picked : Sifted → List (List ℕ) × List Note
picked s = (distinct_ips (sort_leases s.matched) [], notes_of s)

module _ (parse_addr : List ℕ → Option Addr) where
  is_usable : List ℕ → Option Addr → Bool
  is_usable s none = false
  is_usable s (some ip) =
      has_no_zone ip && is4 (unmap ip) && is_private ip && not (has_prefix (bytes "192.168.5.") s)

  -- usableGuestIPv4; net.ParseIP takes no zone.
  unfoldable pub usable_guest_ipv4 : List ℕ → Bool
  unfolding is_usable
  usable_guest_ipv4 s = is_usable s (parse_addr s)

  unfoldable pub in_subnet : Prefix → Option Addr → Bool
  in_subnet subnet none = false
  in_subnet subnet (some ip) = prefix_contains subnet ip

  -- The loop over the records; `want_hw` is none where no address is pinned. `matched` are in the order
  -- of the file.
  unfoldable pub sift : List ℕ → Prefix → Option (List ℕ) → List Lease → Sifted → Sifted
  sift want subnet want_hw [] s = s
  sift want subnet want_hw (l ∷ ls) s =
      let passed = sift want subnet want_hw ls s in
      let off = sift want subnet want_hw ls (off_net_with l s) in
      let bad = sift want subnet want_hw ls (bad_hw_with l s) in
      let good = sift want subnet want_hw ls (matched_with l s) in
      if not (l.name == want) || not (usable_guest_ipv4 l.ip)
      then passed
      else if not (in_subnet subnet (parse_addr l.ip))
      then off
      else elim want_hw [
        | none ↦ good
        | some hw ↦ if same_hw hw (normalize_hw_addr l.hw_addr) then good else bad
      ]

  unfoldable pub pinned_candidates :
      List ℕ → Target → Option (Option (List ℕ)) → List (List ℕ) × List Note
  pinned_candidates text t none =
      picked (sift (wanted_name t) (wanted_subnet t) none (parse_leases text) nothing_yet)
  pinned_candidates text t (some none) = ([], bad_hw_pin ∷ [])
  pinned_candidates text t (some (some hw)) =
      picked (sift (wanted_name t) (wanted_subnet t) (some hw) (parse_leases text) nothing_yet)

  -- leaseCandidatesFrom
  unfoldable pub lease_candidates_from : List ℕ → Target → List (List ℕ) × List Note
  unfolding pinned_candidates
  lease_candidates_from text t = pinned_candidates text t (pin_of t)
