-- ===== src/Listen/Lowest.antt =====
-- The address that vznatPrefix picks is the first of the candidates of the lowest index.
use drawbridge.Base.{
  ℕ, String, ◌-◌, ◌≡◌, refl, sym, ap, ◌∙◌, Bool, true, false, not, ◌&&◌, ◌||◌, Option, none, some,
  List, [], ◌∷◌, ◌++◌, leb, ltb, if◌then◌else◌, if-both, keep, arith, inl, inr, Bool-cases,
}
use drawbridge.MacSync.Listeners.{Addr, no_addr, ip4, ip6, is4, unmap}
use drawbridge.Listen.Prefix.{Prefix, is_valid, no_prefix, prefix_from}
use drawbridge.Listen.Vznat.{
  IfaceAddr, is_candidate, unmapped_prefix, pick_round, pick_loop, pick_vznat, Iface, IfaceNet,
  net_prefix, net_addrs, iface_addrs, candidates, vznat_prefix,
}

-- Of two, the second only if its index is lower.
abbrev pub lower : IfaceAddr → Option IfaceAddr → IfaceAddr
lower a none = a
lower a (some b) = if ltb b.index a.index then b else a

-- The first of the lowest index.
abbrev pub lowest : List IfaceAddr → Option IfaceAddr
lowest [] = none
lowest (a ∷ as') = some (lower a (lowest as'))

abbrev pub answer : Option IfaceAddr → Prefix × Bool
answer none = (no_prefix, false)
answer (some a) = (unmapped_prefix a, true)

-- The prefix of an IPv4 address has at most 32 bits, and is not that of a 4-in-6 one.
abbrev proper : IfaceAddr → Bool
proper a = not (is4 (unmap a.prefix.addr)) || leb a.prefix.bits_plus_one 33

abbrev all_proper : List IfaceAddr → Bool
all_proper [] = true
all_proper (a ∷ as') = proper a && all_proper as'

abbrev state_of : Option IfaceAddr → Prefix × ℕ
state_of none = (no_prefix, 0)
state_of (some a) = (unmapped_prefix a, a.index)

abbrev IsKept : Option IfaceAddr → Type 0
IsKept none = true ≡ true
IsKept (some a) = is_valid (unmapped_prefix a) ≡ true

abbrev join : Option IfaceAddr → Option IfaceAddr → Option IfaceAddr
join none o = o
join (some a) o = some (lower a o)

v4_prefix_from :
    (ip : Addr) (bits : ℕ)
    → is4 ip ≡ true
    → leb bits 32 ≡ true
    → is_valid (prefix_from ip bits) ≡ true
unfolding prefix_from
v4_prefix_from no_addr bits h l = ground (arith, h)
v4_prefix_from (ip4 n) bits h l = ground (arith, l)
v4_prefix_from (ip6 n z) bits h l = ground (arith, h)

candidate-is4 : (a : IfaceAddr) → is_candidate a ≡ true → is4 (unmap a.prefix.addr) ≡ true
unfolding is_candidate
candidate-is4 a h = ground (arith, h)

candidate-kept :
    (a : IfaceAddr) → proper a ≡ true → is_candidate a ≡ true → is_valid (unmapped_prefix a) ≡ true
candidate-kept a p h =
    let v4 = candidate-is4 a h in
    v4_prefix_from (unmap a.prefix.addr) (a.prefix.bits_plus_one - 1) v4 (ground (arith, p, v4))

round-join :
    (a : IfaceAddr) (cur : Option IfaceAddr)
    → IsKept cur
    → is_candidate a ≡ true
    → pick_round a (state_of cur) ≡ state_of (join cur (some a))
unfolding pick_round
round-join a none k h = ground (arith, h)
round-join a (some b) k h = ground (arith, h, k)

join_assoc :
    (cur : Option IfaceAddr) (a : IfaceAddr) (o : Option IfaceAddr)
    → join (join cur (some a)) o ≡ join cur (some (lower a o))
join_assoc none a o = refl
join_assoc (some b) a none = ground arith
join_assoc (some b) a (some d) = ground arith

join-none : (cur : Option IfaceAddr) → join cur none ≡ cur
join-none none = refl
join-none (some a) = refl

join-IsKept :
    (cur : Option IfaceAddr) (a : IfaceAddr)
    → IsKept cur
    → is_valid (unmapped_prefix a) ≡ true
    → IsKept (join cur (some a))
join-IsKept none a k h = h
join-IsKept (some b) a k h =
    if-both (λ x. is_valid (unmapped_prefix x) ≡ true) (ltb a.index b.index) a b h k

round_same : (a : IfaceAddr) (s : Prefix × ℕ) → is_candidate a ≡ false → pick_round a s ≡ s
unfolding pick_round
round_same a s h = rw h refl

pick_loop-join :
    (as' : List IfaceAddr) (cur : Option IfaceAddr)
    → IsKept cur
    → all_proper as' ≡ true
    → pick_loop as' (state_of cur) ≡ state_of (join cur (lowest (keep is_candidate as')))
unfolding pick_loop
pick_loop-join [] cur k p = ap state_of (sym (join-none cur))
pick_loop-join (a ∷ as') cur k p = elim (Bool-cases (is_candidate a)) [
  | inl h ↦ rw h (
      ap (pick_loop as') (round-join a cur k h)
      ∙ pick_loop-join as' (join cur (some a))
          (join-IsKept cur a k (candidate-kept a (ground (arith, p)) h)) (ground (arith, p))
      ∙ ap state_of (join_assoc cur a (lowest (keep is_candidate as'))))
  | inr h ↦ rw h (
      ap (pick_loop as') (round_same a (state_of cur) h)
      ∙ pick_loop-join as' cur k (ground (arith, p)))
]

lower-IsKept :
    (a : IfaceAddr) (o : Option IfaceAddr)
    → is_valid (unmapped_prefix a) ≡ true
    → IsKept o
    → is_valid (unmapped_prefix (lower a o)) ≡ true
lower-IsKept a none h k = h
lower-IsKept a (some b) h k =
    if-both (λ x. is_valid (unmapped_prefix x) ≡ true) (ltb b.index a.index) b a k h

lowest-IsKept :
    (as' : List IfaceAddr) → all_proper as' ≡ true → IsKept (lowest (keep is_candidate as'))
lowest-IsKept [] p = refl
lowest-IsKept (a ∷ as') p =
    let more = lowest-IsKept as' (ground (arith, p)) in
    elim (Bool-cases (is_candidate a)) [
      | inl h ↦ rw h (
          lower-IsKept a (lowest (keep is_candidate as')) (candidate-kept a (ground (arith, p)) h)
            more)
      | inr h ↦ rw h more
    ]

state_of-answer :
    (o : Option IfaceAddr) → IsKept o → ((state_of o).0, is_valid (state_of o).0) ≡ answer o
state_of-answer none k = refl
state_of-answer (some a) k = ap (λ v. (unmapped_prefix a, v)) k

net_prefix-proper :
    (i : ℕ) (name : String) (ip : Addr) (ones : ℕ)
    → proper (record { index = i; name = name; prefix = net_prefix (unmap ip) ones }) ≡ true
unfolding unmap net_prefix prefix_from
net_prefix-proper i name no_addr ones = ground arith
net_prefix-proper i name (ip4 n) ones = ground arith
net_prefix-proper i name (ip6 n z) ones = ground arith

all_proper-append :
    (xs ys : List IfaceAddr)
    → all_proper xs ≡ true
    → all_proper ys ≡ true
    → all_proper (xs ++ ys) ≡ true
all_proper-append [] ys h k = k
all_proper-append (x ∷ xs) ys h k = ground (arith, h, all_proper-append xs ys)

net_addrs-all_proper :
    (i : Iface) (ns : List (Option IfaceNet)) → all_proper (net_addrs i ns) ≡ true
unfolding net_addrs
net_addrs-all_proper i [] = refl
net_addrs-all_proper i (none ∷ ns) = net_addrs-all_proper i ns
net_addrs-all_proper i (some n ∷ ns) =
    ground (arith, net_prefix-proper i.index i.name n.ip n.ones, net_addrs-all_proper i ns)

iface_addrs-all_proper :
    (i : Iface) (o : Option (List (Option IfaceNet))) → all_proper (iface_addrs i o) ≡ true
unfolding iface_addrs
iface_addrs-all_proper i none = refl
iface_addrs-all_proper i (some ns) =
    if-both (λ as'. all_proper as' ≡ true) (i.is_loop || not i.is_up) [] (net_addrs i ns) refl
      (net_addrs-all_proper i ns)

candidates-all_proper : (ifs : List Iface) → all_proper (candidates ifs) ≡ true
unfolding candidates
candidates-all_proper [] = refl
candidates-all_proper (i ∷ is) =
    all_proper-append (iface_addrs i i.nets) (candidates is) (iface_addrs-all_proper i i.nets)
      (candidates-all_proper is)

-- The loop over the interfaces' addresses picks what a direct description does: of the addresses that
-- are private, not of the usernet and not the first host of their subnet, the first of the lowest
-- interface index; and nothing exactly if there is none.
pub vznat_prefix-lowest :
    (ifs : List Iface)
    → vznat_prefix (some ifs) ≡ answer (lowest (keep is_candidate (candidates ifs)))
unfolding vznat_prefix pick_vznat
vznat_prefix-lowest ifs =
    let as' = candidates ifs in
    let p = candidates-all_proper ifs in
    ap (λ (s : Prefix × ℕ). (s.0, is_valid s.0)) (pick_loop-join as' none refl p)
    ∙ state_of-answer (lowest (keep is_candidate as')) (lowest-IsKept as' p)
