-- ===== src/Leases/Trusted.antt =====
-- Which records an address may come from.
use drawbridge.Base.{
  ℕ, ◌≤◌, ◌<◌, ◌≡◌, refl, sym, Bool, true, false, ◌&&◌, ◌||◌, Option, none, some, List, [], ◌∷◌,
  ◌++◌, length, any, arith, length-append,
}
use drawbridge.Base.Eq.{◌==◌, contains}
use drawbridge.Base.Bytes.{bytes_eq}
use drawbridge.MacSync.Listeners.{Addr}
use drawbridge.Listen.Prefix.{Prefix}
use drawbridge.Leases.Records.{Lease, parse_leases, normalize_hw_addr}
use drawbridge.Leases.{
  Target, wanted_name, wanted_subnet, Sifted, same_hw, nothing_yet, off_net_with, bad_hw_with,
  matched_with, insert_sorted, sort_leases, distinct_ips, picked, usable_guest_ipv4, in_subnet,
  sift, pinned_candidates, pin_of, lease_candidates_from,
}

any-append :
    (p : Lease → Bool) (ls : List Lease) (l : Lease) → any p (ls ++ l ∷ []) ≡ (any p ls || p l)
any-append p [] l = ground arith
any-append p (m ∷ ms) l = ground (arith, any-append p ms l)

any-insert_sorted :
    (p : Lease → Bool) (l : Lease) (ls : List Lease)
    → any p (insert_sorted l ls) ≡ (p l || any p ls)
any-insert_sorted p l [] = refl
any-insert_sorted p l (m ∷ ms) = ground (arith, any-insert_sorted p l ms)

any-sort_leases : (p : Lease → Bool) (ls : List Lease) → any p (sort_leases ls) ≡ any p ls
unfolding sort_leases
any-sort_leases p [] = refl
any-sort_leases p (l ∷ ls) =
    ground (arith, any-insert_sorted p l (sort_leases ls), any-sort_leases p ls)

contains-append :
    (ip x : List ℕ) (ips : List (List ℕ))
    → contains ip (ips ++ x ∷ []) ≡ (contains ip ips || x == ip)
unfolding contains
contains-append ip x [] = ground arith
contains-append ip x (y ∷ ips) = ground (arith, contains-append ip x ips)

abbrev has_ip : List ℕ → Lease → Bool
has_ip ip l = l.ip == ip

-- An address that is found is one of the records'.
distinct_ips-sources :
    (ip : List ℕ) (ls : List Lease) (ips : List (List ℕ))
    → contains ip (distinct_ips ls ips) ≡ true
    → (contains ip ips || any (has_ip ip) ls) ≡ true
unfolding distinct_ips
distinct_ips-sources ip [] ips h = ground (arith, h)
distinct_ips-sources ip (l ∷ ls) ips h = ground (
  arith,
  contains-append ip l.ip ips,
  distinct_ips-sources ip ls ips,
  distinct_ips-sources ip ls (ips ++ l.ip ∷ []),
)

distinct_ips-bounded :
    (ls : List Lease) (ips : List (List ℕ)) → length ips < 4 → length (distinct_ips ls ips) ≤ 4
unfolding distinct_ips
distinct_ips-bounded [] ips h = omega arith
distinct_ips-bounded (l ∷ ls) ips h = ground (
  arith,
  length-append ips (l.ip ∷ []),
  distinct_ips-bounded ls ips,
  distinct_ips-bounded ls (ips ++ l.ip ∷ []),
)

module _ (parse_addr : List ℕ → Option Addr) where
  abbrev pub meets_pin : Option (List ℕ) → Lease → Bool
  meets_pin none l = true
  meets_pin (some hw) l = same_hw hw (normalize_hw_addr l.hw_addr)

  -- The record has the machine's name, a usable address in the subnet, and the hardware address that is
  -- pinned, if one is.
  abbrev pub passes : List ℕ → Prefix → Option (List ℕ) → Lease → Bool
  passes want subnet pin l =
      l.name == want
      && usable_guest_ipv4 parse_addr l.ip
      && in_subnet parse_addr subnet (parse_addr l.ip)
      && meets_pin pin l

  sift-matched :
      (p : Lease → Bool) (want : List ℕ) (subnet : Prefix) (pin : Option (List ℕ)) (ls : List Lease)
      (s : Sifted)
      → any p (sift parse_addr want subnet pin ls s).matched
        ≡ (any p s.matched || any (λ l. passes want subnet pin l && p l) ls)
  unfolding sift
  sift-matched p want subnet none [] s = ground arith
  sift-matched p want subnet (some hw) [] s = ground arith
  sift-matched p want subnet none (l ∷ ls) s = ground (
    arith,
    any-append p s.matched l,
    sift-matched p want subnet none ls s,
    sift-matched p want subnet none ls (off_net_with l s),
    sift-matched p want subnet none ls (matched_with l s),
  )
  sift-matched p want subnet (some hw) (l ∷ ls) s = ground (
    arith,
    any-append p s.matched l,
    sift-matched p want subnet (some hw) ls s,
    sift-matched p want subnet (some hw) ls (off_net_with l s),
    sift-matched p want subnet (some hw) ls (bad_hw_with l s),
    sift-matched p want subnet (some hw) ls (matched_with l s),
  )

  abbrev sifted : List ℕ → Target → Option (List ℕ) → Sifted
  sifted text t pin =
      sift parse_addr (wanted_name t) (wanted_subnet t) pin (parse_leases text) nothing_yet

  picked-sources :
      (text : List ℕ) (t : Target) (pin : Option (List ℕ)) (ip : List ℕ)
      → contains ip (picked (sifted text t pin)).0 ≡ true
      → any (λ l. passes (wanted_name t) (wanted_subnet t) pin l && has_ip ip l) (parse_leases text)
        ≡ true
  unfolding picked contains
  picked-sources text t pin ip h =
      let s = sifted text t pin in
      ground (
        arith,
        distinct_ips-sources ip (sort_leases s.matched) [] h,
        any-sort_leases (has_ip ip) s.matched,
        sift-matched (has_ip ip) (wanted_name t) (wanted_subnet t) pin (parse_leases text)
            nothing_yet,
      )

  -- Some record of the file has the address, the machine's name, and an address in its subnet; and if
  -- the target pins a hardware address, it is one, and the record's is the same.
  abbrev pub Trusted : List ℕ → Target → List ℕ → Option (Option (List ℕ)) → Type 0
  Trusted text t ip none =
      any (λ l. passes (wanted_name t) (wanted_subnet t) none l && has_ip ip l) (parse_leases text)
      ≡ true
  Trusted text t ip (some none) = true ≡ false
  Trusted text t ip (some (some hw)) =
      any (λ l. passes (wanted_name t) (wanted_subnet t) (some hw) l && has_ip ip l)
        (parse_leases text)
      ≡ true

  pinned_candidates-Trusted :
      (text : List ℕ) (t : Target) (ip : List ℕ) (pin : Option (Option (List ℕ)))
      → contains ip (pinned_candidates parse_addr text t pin).0 ≡ true
      → Trusted text t ip pin
  unfolding pinned_candidates contains
  pinned_candidates-Trusted text t ip none h = picked-sources text t none ip h
  pinned_candidates-Trusted text t ip (some none) h = sym h
  pinned_candidates-Trusted text t ip (some (some hw)) h = picked-sources text t (some hw) ip h

  pinned_candidates-bounded :
      (text : List ℕ) (t : Target) (pin : Option (Option (List ℕ)))
      → length (pinned_candidates parse_addr text t pin).0 ≤ 4
  unfolding pinned_candidates picked
  pinned_candidates-bounded text t none =
      distinct_ips-bounded (sort_leases (sifted text t none).matched) [] (omega arith)
  pinned_candidates-bounded text t (some none) = omega arith
  pinned_candidates-bounded text t (some (some hw)) =
      distinct_ips-bounded (sort_leases (sifted text t (some hw)).matched) [] (omega arith)

  -- Whatever the file says, and however addresses are parsed: at most four addresses are candidates, and
  -- each is that of a record with exactly the machine's name and a usable address in the subnet. If the
  -- target pins a hardware address, the record's is the same address, however either is spelled; a pin
  -- that is no address leaves no candidate.
  pub lease_candidates_from-Trusted :
      (text : List ℕ) (t : Target) (ip : List ℕ)
      → contains ip (lease_candidates_from parse_addr text t).0 ≡ true
      → (length (lease_candidates_from parse_addr text t).0 ≤ 4) × Trusted text t ip (pin_of t)
  unfolding lease_candidates_from
  lease_candidates_from-Trusted text t ip h = (
    pinned_candidates-bounded text t (pin_of t),
    pinned_candidates-Trusted text t ip (pin_of t) h,
  )
