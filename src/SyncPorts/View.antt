-- ===== src/SyncPorts/View.antt =====
-- Which ports the session owns after each operation, in a guest that refuses nothing and whose only
-- Mac ports are the session's.
use mathlib.Core.Path.{subst}
use drawbridge.Base.{
  suc, ◌≡◌, refl, sym, ap, ◌∙◌, Bool, true, false, not, ◌&&◌, ◌||◌, Option, none, some, List, [],
  ◌∷◌, is_some, Bool-cases, inl, inr, arith,
}
use drawbridge.Base.Eq.{contains}
use drawbridge.Base.Table.{lookup, insert, lookup-insert, lookup-delete}
use drawbridge.Base.Sets.{put, contains-put, contains-discard}
use drawbridge.MacSync.Listeners.{Addr, Listener}
use drawbridge.AgentReserve.{PortId}
use drawbridge.SyncPorts.{
  port_key_eq, port_id_beq, port_id_eq, port_id_beq_iff, MacPorts, MacEntry, Guest, known_proto,
  key_for, add_mac_port, removed, remove_mac_port, remove_mac_ports, kept_if, add_owned, id_of,
  has_addr, added, add_sync_port, dropped, del_sync_port,
}

-- Every proxy listens, and the BPF map takes and drops every key.
abbrev pub Willing : Guest → Type 0
Willing g = (id : PortId) → (g.listens id ≡ true) × (g.puts id ≡ true) × (g.deletes id ≡ true)

-- The registered ports are exactly the session's.
abbrev pub Exclusive : MacPorts → Type 0
Exclusive s = (id : PortId) → is_some (lookup id s.mac) ≡ contains id s.sync_owned

-- The port named by an id, if any.
abbrev pub is_id : PortId → Option PortId → Bool
is_id j none = false
is_id j (some id) = port_id_beq id j

abbrev known : Option PortId → Bool
known none = true
known (some id) = known_proto id.proto

-- The registry with one more port.
abbrev with_port : PortId → Addr → MacPorts → MacPorts
with_port id a s =
    let k = key_for id.proto a id.port in
    record s {
      mac = insert id (record { key = k; gateway = s.next_gateway }) s.mac;
      steered = put k s.steered;
      gateways = record { name = s.next_gateway; id = id } ∷ s.gateways;
      next_gateway = suc s.next_gateway;
    }

add_mac_port-free :
    (g : Guest) (id : PortId) (a : Addr) (s : MacPorts)
    → Willing g
    → known_proto id.proto ≡ true
    → is_some (lookup id s.mac) ≡ false
    → add_mac_port g id a s ≡ (with_port id a s, true)
unfolding add_mac_port
add_mac_port-free g id a s w k h = ground (arith, w id)

add_owned-free :
    (g : Guest) (id : PortId) (a : Addr) (s : MacPorts)
    → Willing g
    → known_proto id.proto ≡ true
    → is_some (lookup id s.mac) ≡ false
    → add_owned g id a s ≡ with_port id a (record s { sync_owned = put id s.sync_owned })
unfolding add_owned kept_if
add_owned-free g id a s w k h = rw h (
    ap (kept_if id)
      (add_mac_port-free g id a (record s { sync_owned = put id s.sync_owned }) w k h))

-- The ports that the session owns, and with them the registry, gain the one.
abbrev Gains : PortId → PortId → MacPorts → MacPorts → Type 0
Gains id j s t =
    (contains j t.sync_owned ≡ (port_id_beq id j || contains j s.sync_owned))
    × (is_some (lookup j t.mac) ≡ (port_id_beq id j || contains j s.sync_owned))

with_port-Gains :
    (id j : PortId) (a : Addr) (s : MacPorts)
    → Exclusive s
    → Gains id j s (with_port id a (record s { sync_owned = put id s.sync_owned }))
with_port-Gains id j a s x = ground (
  arith,
  x j,
  contains-put id j s.sync_owned,
  lookup-insert id j (record { key = key_for id.proto a id.port; gateway = s.next_gateway }) s.mac,
)

add_owned-Gains :
    (g : Guest) (id j : PortId) (a : Addr) (s : MacPorts)
    → Willing g
    → known_proto id.proto ≡ true
    → Exclusive s
    → Gains id j s (add_owned g id a s)
add_owned-Gains g id j a s w k x = elim (Bool-cases (is_some (lookup id s.mac))) [
  | inl e ↦
      let same : add_owned g id a s ≡ s = unfold add_owned in rw e in
      subst (Gains id j s) (sym same) (ground (arith, x id, x j, port_id_beq_iff id j))
  | inr e ↦ subst (Gains id j s) (sym (add_owned-free g id a s w k e)) (with_port-Gains id j a s x)
]

removed-view :
    (g : Guest) (id j : PortId) (o : Option MacEntry) (s : MacPorts)
    → lookup id s.mac ≡ o
    → Exclusive s
    → (contains j (removed g id o s).sync_owned
        ≡ (contains j s.sync_owned && not (port_id_beq id j)))
      × (is_some (lookup j (removed g id o s).mac)
          ≡ (contains j s.sync_owned && not (port_id_beq id j)))
unfolding removed
removed-view g id j none s h x = ground (arith, x id, x j, port_id_beq_iff id j)
removed-view g id j (some e) s h x =
    ground (arith, x j, contains-discard id j s.sync_owned, lookup-delete id j s.mac)

-- And they lose the one.
abbrev Loses : PortId → PortId → MacPorts → MacPorts → Type 0
Loses id j s t =
    (contains j t.sync_owned ≡ (contains j s.sync_owned && not (port_id_beq id j)))
    × (is_some (lookup j t.mac) ≡ (contains j s.sync_owned && not (port_id_beq id j)))

remove_mac_port-Loses :
    (g : Guest) (id j : PortId) (s : MacPorts) → Exclusive s → Loses id j s (remove_mac_port g id s)
unfolding remove_mac_port
remove_mac_port-Loses g id j s x = removed-view g id j (lookup id s.mac) s refl x

id_of-known : (l : Listener) → known (id_of l) ≡ true
id_of-known l = ground arith

-- A set of owned ports after an operation.
abbrev pub Owns : PortId → Bool → MacPorts → Type 0
Owns j b t = (contains j t.sync_owned ≡ b) × (is_some (lookup j t.mac) ≡ b)

pub Owns-Exclusive :
    (b : PortId → Bool) (t : MacPorts) → ((j : PortId) → Owns j (b j) t) → Exclusive t
Owns-Exclusive b t h = λ j. (h j).1 ∙ sym (h j).0

added-Owns :
    (g : Guest) (o : Option PortId) (j : PortId) (a : Addr) (s : MacPorts)
    → Willing g
    → known o ≡ true
    → has_addr a ≡ true
    → Exclusive s
    → Owns j (is_id j o || contains j s.sync_owned) (added g o a s)
unfolding added
added-Owns g none j a s w k v x = (refl, x j)
added-Owns g (some id) j a s w k v x = rw v (add_owned-Gains g id j a s w k x)

pub add_sync_port-Owns :
    (g : Guest) (l : Listener) (j : PortId) (s : MacPorts)
    → Willing g
    → has_addr l.addr ≡ true
    → Exclusive s
    → Owns j (is_id j (id_of l) || contains j s.sync_owned) (add_sync_port g l s)
unfolding add_sync_port
add_sync_port-Owns g l j s w v x = added-Owns g (id_of l) j l.addr s w (id_of-known l) v x

dropped-Owns :
    (g : Guest) (o : Option PortId) (j : PortId) (s : MacPorts)
    → Exclusive s
    → Owns j (contains j s.sync_owned && not (is_id j o)) (dropped g o s)
unfolding dropped
dropped-Owns g none j s x = ground (arith, x j)
dropped-Owns g (some id) j s x = elim (Bool-cases (contains id s.sync_owned)) [
  | inl e ↦ rw e (remove_mac_port-Loses g id j s x)
  | inr e ↦ rw e (ground (arith, x j, port_id_beq_iff id j))
]

pub del_sync_port-Owns :
    (g : Guest) (l : Listener) (j : PortId) (s : MacPorts)
    → Exclusive s
    → Owns j (contains j s.sync_owned && not (is_id j (id_of l))) (del_sync_port g l s)
unfolding del_sync_port
del_sync_port-Owns g l j s x = dropped-Owns g (id_of l) j s x

pub remove_mac_ports-Owns :
    (g : Guest) (ids : List PortId) (j : PortId) (s : MacPorts)
    → Exclusive s
    → Owns j (contains j s.sync_owned && not (contains j ids)) (remove_mac_ports g ids s)
unfolding remove_mac_ports contains
remove_mac_ports-Owns g [] j s x = ground (arith, x j)
remove_mac_ports-Owns g (id ∷ ids) j s x =
    let one = λ (i : PortId). remove_mac_port-Loses g id i s x in
    let t = remove_mac_port g id s in
    let more =
      remove_mac_ports-Owns g ids j t
        (Owns-Exclusive (λ i. contains i s.sync_owned && not (port_id_beq id i)) t one) in
    ground (arith, more, one j)
