-- ===== src/SyncPorts/Served.antt =====
-- The registry, the BPF map and the proxies agree: a port is served whole, or not at all.
use drawbridge.Base.{
  suc, ◌<◌, ◌≡◌, refl, ap, ◌∙◌, Bool, true, false, not, Option, none, some, List, [], ◌∷◌, eqb,
  if-both, is_some, keep, Option-cases, inl, inr, arith,
}
use drawbridge.Base.Eq.{contains}
use drawbridge.Base.Table.{lookup, insert, delete, lookup-insert, lookup-delete}
use drawbridge.Base.Sets.{put, discard, contains-put, contains-discard, contains-keep}
use drawbridge.MacSync.Listeners.{Addr, Listener}
use drawbridge.MacSync.Syncer.{SyncEvent, op_snapshot, op_add, op_del, op_ping}
use drawbridge.AgentReserve.{PortId}
use drawbridge.SyncPorts.{
  PortKey, port_key_eq, port_key_beq, port_id_eq, port_id_beq_iff, Gateway, gateway_eq, MacPorts,
  MacEntry, Guest, known_proto, key_for, add_mac_port, removed, remove_mac_port, remove_mac_ports,
  kept_if, add_owned, id_of, has_addr, added, add_sync_port, dropped, del_sync_port, wants,
  add_wanted, apply_sync_snapshot, sync_event, sync_events,
}

-- The port that a key of the BPF map steers.
abbrev pub key_id : PortKey → PortId
key_id k = record { proto = k.proto; port = k.port }

abbrev pub keyed : PortKey → Option MacEntry → Bool
keyed k none = false
keyed k (some e) = port_key_beq e.key k

abbrev pub runs_proxy : Gateway → Option MacEntry → Bool
runs_proxy p none = false
runs_proxy p (some e) = eqb e.gateway p.name

-- The keys in the BPF map, and the proxies that listen, are exactly the registered entries' own.
pub record IsCoherent (s : MacPorts) : Type 0 where
  pub own_keys : (id : PortId) (e : MacEntry) → lookup id s.mac ≡ some e → key_id e.key ≡ id
  pub steers : (k : PortKey) → contains k s.steered ≡ keyed k (lookup (key_id k) s.mac)
  pub proxies : (p : Gateway) → contains p s.gateways ≡ runs_proxy p (lookup p.id s.mac)
  pub fresh : (p : Gateway) → contains p s.gateways ≡ true → p.name < s.next_gateway
  pub apart :
      (p q : Gateway)
      → contains p s.gateways ≡ true
      → contains q s.gateways ≡ true
      → p.name ≡ q.name
      → p.id ≡ q.id

-- A port that is served has an entry, whose key is in the BPF map and whose proxy listens. One that
-- is not has none, no key in the BPF map, and no proxy.
unfoldable pub Serves : PortId → Bool → MacPorts → Type 0
Serves j true s =
    (e : MacEntry) × (lookup j s.mac ≡ some e)
    × (contains e.key s.steered ≡ true)
    × (contains (record { name = e.gateway; id = j }) s.gateways ≡ true)
Serves j false s =
    (lookup j s.mac ≡ none)
    × ((k : PortKey) → key_id k ≡ j → contains k s.steered ≡ false)
    × ((p : Gateway) → p.id ≡ j → contains p s.gateways ≡ false)

pub Serves-of :
    (j : PortId) (b : Bool) (s : MacPorts)
    → IsCoherent s
    → is_some (lookup j s.mac) ≡ b
    → Serves j b s
unfolding Serves
Serves-of j true s c h = elim (Option-cases (lookup j s.mac)) [
  | inl q ↦ ground (arith, h, q)
  | inr (e, q) ↦ (
    e,
    q,
    c.steers e.key
        ∙ ap (λ i. keyed e.key (lookup i s.mac)) (c.own_keys j e q)
        ∙ ap (keyed e.key) q
        ∙ ground arith,
    c.proxies (record { name = e.gateway; id = j })
        ∙ ap (runs_proxy (record { name = e.gateway; id = j })) q
        ∙ ground arith,
  )
]
Serves-of j false s c h =
    let absent : lookup j s.mac ≡ none = ground (arith, h) in
    (
      absent,
      λ k e. c.steers k ∙ ap (λ i. keyed k (lookup i s.mac)) e ∙ ap (keyed k) absent,
      λ p e. c.proxies p ∙ ap (λ i. runs_proxy p (lookup i s.mac)) e ∙ ap (runs_proxy p) absent,
    )

pub Serves-registered :
    (j : PortId) (b : Bool) (s : MacPorts) → Serves j b s → is_some (lookup j s.mac) ≡ b
unfolding Serves
Serves-registered j true s (e, q, r, t) = ap is_some q
Serves-registered j false s (q, r, t) = ap is_some q

module _ (id : PortId) (a : Addr) (s : MacPorts) (c : IsCoherent s)
    (absent : lookup id s.mac ≡ none) where
  abbrev entry : MacEntry
  entry = record { key = key_for id.proto a id.port; gateway = s.next_gateway }

  abbrev proxy : Gateway
  proxy = record { name = s.next_gateway; id = id }

  added_keys :
      (j : PortId) (e : MacEntry) → lookup j (insert id entry s.mac) ≡ some e → key_id e.key ≡ j
  added_keys j e h =
      ground (arith, h, lookup-insert id j entry s.mac, c.own_keys j e, port_id_beq_iff id j)

  added_steers :
      (k : PortKey)
      → contains k (put entry.key s.steered) ≡ keyed k (lookup (key_id k) (insert id entry s.mac))
  added_steers k =
      contains-put entry.key k s.steered
      ∙ ground (
        arith,
        c.steers k,
        lookup-insert id (key_id k) entry s.mac,
        port_id_beq_iff id (key_id k),
        absent,
      )

  added_proxies :
      (p : Gateway)
      → contains p (proxy ∷ s.gateways) ≡ runs_proxy p (lookup p.id (insert id entry s.mac))
  unfolding contains
  added_proxies p =
      ground
        (arith, c.proxies p, lookup-insert id p.id entry s.mac, port_id_beq_iff id p.id, absent)

  added_fresh : (p : Gateway) → contains p (proxy ∷ s.gateways) ≡ true → p.name < suc s.next_gateway
  unfolding contains
  added_fresh p h = ground (arith, h, c.fresh p)

  added_apart :
      (p q : Gateway)
      → contains p (proxy ∷ s.gateways) ≡ true
      → contains q (proxy ∷ s.gateways) ≡ true
      → p.name ≡ q.name
      → p.id ≡ q.id
  unfolding contains
  added_apart p q hp hq e =
      ground
        (arith, c.fresh p, c.fresh q, c.apart p q, port_id_beq_iff id p.id, port_id_beq_iff id q.id)

-- A step that fails after it took a name for its proxy.
skips_name-IsCoherent :
    (s : MacPorts) → IsCoherent s → IsCoherent (record s { next_gateway = suc s.next_gateway })
skips_name-IsCoherent s c = record {
  own_keys = c.own_keys;
  steers = c.steers;
  proxies = c.proxies;
  fresh = λ p h. ground (arith, c.fresh p h);
  apart = c.apart;
}

add_mac_port-IsCoherent :
    (g : Guest) (id : PortId) (a : Addr) (s : MacPorts)
    → IsCoherent s
    → IsCoherent (add_mac_port g id a s).0
unfolding add_mac_port
add_mac_port-IsCoherent g id a s c =
    let kept = λ (t : MacPorts × Bool). IsCoherent t.0 in
    elim (Option-cases (lookup id s.mac)) [
      | inr (e, q) ↦ rw q c
      | inl absent ↦ rw absent (
          if-both kept (not (known_proto id.proto)) _ _ c (
            if-both kept (not (g.listens id)) _ _ c (
              if-both kept (not (g.puts id)) _ _ (skips_name-IsCoherent s c) (record {
                own_keys = added_keys id a s c absent;
                steers = added_steers id a s c absent;
                proxies = added_proxies id a s c absent;
                fresh = added_fresh id a s c absent;
                apart = added_apart id a s c absent;
              }))))
    ]

module _ (id : PortId) (s : MacPorts) (c : IsCoherent s) (e : MacEntry)
    (has : lookup id s.mac ≡ some e) where
  removed_keys :
      (j : PortId) (f : MacEntry) → lookup j (delete id s.mac) ≡ some f → key_id f.key ≡ j
  removed_keys j f h = ground (arith, h, lookup-delete id j s.mac, c.own_keys j f)

  removed_steers :
      (k : PortKey)
      → contains k (discard e.key s.steered) ≡ keyed k (lookup (key_id k) (delete id s.mac))
  removed_steers k =
      contains-discard e.key k s.steered
      ∙ ground (
        arith,
        c.steers k,
        lookup-delete id (key_id k) s.mac,
        port_id_beq_iff id (key_id k),
        c.own_keys id e has,
        has,
      )

  removed_proxies :
      (p : Gateway)
      → contains p (keep (λ q. not (eqb q.name e.gateway)) s.gateways)
        ≡ runs_proxy p (lookup p.id (delete id s.mac))
  removed_proxies p =
      let own : Gateway = record { name = e.gateway; id = id } in
      contains-keep (λ q. not (eqb q.name e.gateway)) p s.gateways
      ∙ ground (
        arith,
        c.proxies p,
        c.proxies own,
        c.apart p own,
        lookup-delete id p.id s.mac,
        port_id_beq_iff id p.id,
        has,
      )

  left_proxies :
      (p : Gateway)
      → contains p (keep (λ q. not (eqb q.name e.gateway)) s.gateways) ≡ true
      → contains p s.gateways ≡ true
  left_proxies p h = ground (arith, h, contains-keep (λ q. not (eqb q.name e.gateway)) p s.gateways)

removed-IsCoherent :
    (g : Guest) (id : PortId) (o : Option MacEntry) (s : MacPorts)
    → g.deletes id ≡ true
    → lookup id s.mac ≡ o
    → IsCoherent s
    → IsCoherent (removed g id o s)
unfolding removed
removed-IsCoherent g id none s d has c = c
removed-IsCoherent g id (some e) s d has c = rw d (record {
  own_keys = removed_keys id s c e has;
  steers = removed_steers id s c e has;
  proxies = removed_proxies id s c e has;
  fresh = λ p h. c.fresh p (left_proxies id s c e has p h);
  apart =
      λ p q hp hq. c.apart p q (left_proxies id s c e has p hp) (left_proxies id s c e has q hq);
})

abbrev pub Drops : Guest → Type 0
Drops g = (id : PortId) → g.deletes id ≡ true

remove_mac_port-IsCoherent :
    (g : Guest) (id : PortId) (s : MacPorts)
    → Drops g
    → IsCoherent s
    → IsCoherent (remove_mac_port g id s)
unfolding remove_mac_port
remove_mac_port-IsCoherent g id s d c = removed-IsCoherent g id (lookup id s.mac) s (d id) refl c

remove_mac_ports-IsCoherent :
    (g : Guest) (ids : List PortId) (s : MacPorts)
    → Drops g
    → IsCoherent s
    → IsCoherent (remove_mac_ports g ids s)
unfolding remove_mac_ports
remove_mac_ports-IsCoherent g [] s d c = c
remove_mac_ports-IsCoherent g (id ∷ ids) s d c =
    remove_mac_ports-IsCoherent g ids (remove_mac_port g id s) d
      (remove_mac_port-IsCoherent g id s d c)

-- What the session owns is no part of the agreement.
owned-IsCoherent :
    (owned : List PortId) (s : MacPorts)
    → IsCoherent s
    → IsCoherent (record s { sync_owned = owned })
owned-IsCoherent owned s c = record {
  own_keys = c.own_keys;
  steers = c.steers;
  proxies = c.proxies;
  fresh = c.fresh;
  apart = c.apart;
}

kept_if-IsCoherent :
    (id : PortId) (r : MacPorts × Bool) → IsCoherent r.0 → IsCoherent (kept_if id r)
unfolding kept_if
kept_if-IsCoherent id (s, true) c = c
kept_if-IsCoherent id (s, false) c = owned-IsCoherent (discard id s.sync_owned) s c

added-IsCoherent :
    (g : Guest) (o : Option PortId) (a : Addr) (s : MacPorts)
    → IsCoherent s
    → IsCoherent (added g o a s)
unfolding added add_owned
added-IsCoherent g none a s c = c
added-IsCoherent g (some id) a s c =
    let mine = record s { sync_owned = put id s.sync_owned } in
    if-both IsCoherent (has_addr a) _ _
      (if-both IsCoherent (is_some (lookup id s.mac)) _ _ c (
        kept_if-IsCoherent id (add_mac_port g id a mine)
          (add_mac_port-IsCoherent g id a mine (owned-IsCoherent (put id s.sync_owned) s c))))
      c

dropped-IsCoherent :
    (g : Guest) (o : Option PortId) (s : MacPorts)
    → Drops g
    → IsCoherent s
    → IsCoherent (dropped g o s)
unfolding dropped
dropped-IsCoherent g none s d c = c
dropped-IsCoherent g (some id) s d c =
    if-both IsCoherent (contains id s.sync_owned) _ _ (remove_mac_port-IsCoherent g id s d c) c

add_wanted-IsCoherent :
    (g : Guest) (want : List (PortId × Listener)) (s : MacPorts)
    → IsCoherent s
    → IsCoherent (add_wanted g want s)
unfolding add_wanted add_sync_port
add_wanted-IsCoherent g [] s c = c
add_wanted-IsCoherent g ((id, l) ∷ rest) s c =
    let l' : Listener = record l { port = id.port } in
    add_wanted-IsCoherent g rest (add_sync_port g l' s) (added-IsCoherent g (id_of l') l.addr s c)

sync_event-IsCoherent :
    (g : Guest) (e : SyncEvent) (s : MacPorts)
    → Drops g
    → IsCoherent s
    → IsCoherent (sync_event g e s)
unfolding sync_event apply_sync_snapshot add_sync_port del_sync_port
sync_event-IsCoherent g (op_snapshot ls) s d c =
    add_wanted-IsCoherent g (wants ls []) _ (remove_mac_ports-IsCoherent g _ s d c)
sync_event-IsCoherent g (op_add l) s d c = added-IsCoherent g (id_of l) l.addr s c
sync_event-IsCoherent g (op_del l) s d c = dropped-IsCoherent g (id_of l) s d c
sync_event-IsCoherent g op_ping s d c = c

pub sync_events-IsCoherent :
    (g : Guest) (es : List SyncEvent) (s : MacPorts)
    → Drops g
    → IsCoherent s
    → IsCoherent (sync_events g es s)
unfolding sync_events
sync_events-IsCoherent g [] s d c = c
sync_events-IsCoherent g (e ∷ es) s d c =
    sync_events-IsCoherent g es (sync_event g e s) d (sync_event-IsCoherent g e s d c)
