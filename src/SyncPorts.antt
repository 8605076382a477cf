-- ===== src/SyncPorts.antt =====
-- internal/agent/agent.go and internal/agent/macsync.go: the Mac ports that the agent serves in the
-- guest, and the session that keeps them in step with the Mac's listeners.
pub mod View
pub mod Served
pub mod Track
pub mod Ticks
pub mod Runs
use drawbridge.Base.{
  ℕ, suc, ◌+◌, String, ◌≡◌, ◌↔◌, Bool, true, false, not, ◌&&◌, ◌||◌, Option, none, some, List, [],
  ◌∷◌, eqb, if◌then◌else◌, is_some, keep, arith,
}
use drawbridge.Base.Eq.{Comparable, ◌==◌, contains}
use drawbridge.Base.Table.{lookup, insert, delete, keys}
use drawbridge.Base.Sets.{put, discard}
use drawbridge.MacSync.Listeners.{Addr, no_addr, ip4, ip6, Listener}
use drawbridge.MacSync.Syncer.{SyncEvent, op_snapshot, op_add, op_del, op_ping}
use drawbridge.UdpFrame.Frame.{as16}
use drawbridge.AgentReserve.{PortId, proto_num}

abbrev pub port_id_beq : PortId → PortId → Bool
port_id_beq a b = eqb a.proto b.proto && eqb a.port b.port

pub port_id_beq_iff : (a b : PortId) → (port_id_beq a b ≡ true) ↔ (a ≡ b)
port_id_beq_iff a b = ground arith

instance abbrev pub port_id_eq : Comparable PortId
port_id_eq = record { equal = port_id_beq; equal_iff = port_id_beq_iff }

-- bpf.PortKey, its address as the number of its 16 bytes.
pub record PortKey : Type 0 where
  pub proto : ℕ
  pub addr : ℕ
  pub port : ℕ

-- bpf.KeyFor
abbrev pub key_for : ℕ → Addr → ℕ → PortKey
key_for proto addr port = record { proto = proto; addr = as16 addr; port = port }

abbrev pub port_key_beq : PortKey → PortKey → Bool
port_key_beq a b = eqb a.proto b.proto && eqb a.addr b.addr && eqb a.port b.port

pub port_key_beq_iff : (a b : PortKey) → (port_key_beq a b ≡ true) ↔ (a ≡ b)
port_key_beq_iff a b = ground arith

instance abbrev pub port_key_eq : Comparable PortKey
port_key_eq = record { equal = port_key_beq; equal_iff = port_key_beq_iff }

-- A proxy's listener in the guest, by its name, and the port that it serves.
pub record Gateway : Type 0 where
  pub name : ℕ
  pub id : PortId

abbrev pub gateway_beq : Gateway → Gateway → Bool
gateway_beq a b = eqb a.name b.name && port_id_beq a.id b.id

pub gateway_beq_iff : (a b : Gateway) → (gateway_beq a b ≡ true) ↔ (a ≡ b)
gateway_beq_iff a b = ground (arith, port_id_beq_iff a.id b.id)

instance abbrev pub gateway_eq : Comparable Gateway
gateway_eq = record { equal = gateway_beq; equal_iff = gateway_beq_iff }

-- macEntry; `gateway` names the proxy's listener.
pub record MacEntry : Type 0 where
  pub key : PortKey
  pub gateway : ℕ

-- The registry: the entries, those that the session owns, the BPF map mac_ports, and the proxies that
-- listen, `next_gateway` the next one's name.
pub record MacPorts : Type 0 where
  pub mac : List (PortId × MacEntry)
  pub sync_owned : List PortId
  pub steered : List PortKey
  pub gateways : List Gateway
  pub next_gateway : ℕ

-- What the guest's kernel answers: whether a gateway proxy can listen for a port, and whether the BPF
-- map takes and drops its key.
pub record Guest : Type 0 where
  pub listens : PortId → Bool
  pub puts : PortId → Bool
  pub deletes : PortId → Bool

abbrev pub known_proto : ℕ → Bool
known_proto proto = eqb proto 6 || eqb proto 17

-- AddMacPort: the proxy first, then the map.
unfoldable pub add_mac_port : Guest → PortId → Addr → MacPorts → MacPorts × Bool
add_mac_port g id addr s =
    let k = key_for id.proto addr id.port in
    if is_some (lookup id s.mac)
    then (s, false)
    else if not (known_proto id.proto)
    then (s, false)
    else if not (g.listens id)
    then (s, false)
    else if not (g.puts id)
    then (record s { next_gateway = suc s.next_gateway }, false)
    else (
      record s {
        mac = insert id (record { key = k; gateway = s.next_gateway }) s.mac;
        steered = put k s.steered;
        gateways = record { name = s.next_gateway; id = id } ∷ s.gateways;
        next_gateway = suc s.next_gateway;
      },
      true,
    )

unfoldable pub removed : Guest → PortId → Option MacEntry → MacPorts → MacPorts
removed g id none s = s
removed g id (some e) s = record s {
  mac = delete id s.mac;
  sync_owned = discard id s.sync_owned;
  steered = if g.deletes id then discard e.key s.steered else s.steered;
  gateways = keep (λ p. not (eqb p.name e.gateway)) s.gateways;
}

-- RemoveMacPort: the map first, then the proxy.
unfoldable pub remove_mac_port : Guest → PortId → MacPorts → MacPorts
unfolding removed
remove_mac_port g id s = removed g id (lookup id s.mac) s

unfoldable pub remove_mac_ports : Guest → List PortId → MacPorts → MacPorts
remove_mac_ports g [] s = s
remove_mac_ports g (id ∷ ids) s = remove_mac_ports g ids (remove_mac_port g id s)

unfoldable pub kept_if : PortId → MacPorts × Bool → MacPorts
kept_if id (s, true) = s
kept_if id (s, false) = record s { sync_owned = discard id s.sync_owned }

-- The rest of addSyncPort, once its listener has a port id and an address.
unfoldable pub add_owned : Guest → PortId → Addr → MacPorts → MacPorts
unfolding kept_if
add_owned g id addr s =
    if is_some (lookup id s.mac)
    then s
    else kept_if id (add_mac_port g id addr (record s { sync_owned = put id s.sync_owned }))

abbrev pub id_of : Listener → Option PortId
id_of l = elim (proto_num l.proto) [
  | none ↦ none
  | some pn ↦ some (record { proto = pn; port = l.port })
]

abbrev pub has_addr : Addr → Bool
has_addr no_addr = false
has_addr (ip4 n) = true
has_addr (ip6 n z) = true

unfoldable pub added : Guest → Option PortId → Addr → MacPorts → MacPorts
added g none addr s = s
added g (some id) addr s = if has_addr addr then add_owned g id addr s else s

-- addSyncPort of a listener that came over the wire. Its address is printed and parsed back, which
-- fails for the zero Addr alone.
unfoldable pub add_sync_port : Guest → Listener → MacPorts → MacPorts
unfolding added
add_sync_port g l s = added g (id_of l) l.addr s

unfoldable pub dropped : Guest → Option PortId → MacPorts → MacPorts
dropped g none s = s
dropped g (some id) s = if contains id s.sync_owned then remove_mac_port g id s else s

-- delSyncPort
unfoldable pub del_sync_port : Guest → Listener → MacPorts → MacPorts
unfolding dropped
del_sync_port g l s = dropped g (id_of l) s

unfoldable pub want_one :
    Option PortId → Listener → List (PortId × Listener) → List (PortId × Listener)
want_one none l want = want
want_one (some id) l want = insert id l want

-- want, the last listener of each port winning.
unfoldable pub wants : List Listener → List (PortId × Listener) → List (PortId × Listener)
unfolding want_one
wants [] want = want
wants (l ∷ ls) want = wants ls (want_one (id_of l) l want)

-- The loop over want; the port of an entry is its key's.
unfoldable pub add_wanted : Guest → List (PortId × Listener) → MacPorts → MacPorts
add_wanted g [] s = s
add_wanted g ((id, l) ∷ rest) s =
    add_wanted g rest (add_sync_port g (record l { port = id.port }) s)

-- applySyncSnapshot
unfoldable pub apply_sync_snapshot : Guest → List Listener → MacPorts → MacPorts
apply_sync_snapshot g ls s =
    let want = wants ls [] in
    let stale = keep (λ id. not (is_some (lookup id want))) s.sync_owned in
    add_wanted g want (remove_mac_ports g stale s)

-- removeSyncOwned, at the end of a session.
unfoldable pub remove_sync_owned : Guest → MacPorts → MacPorts
remove_sync_owned g s = remove_mac_ports g s.sync_owned s

-- One event of serveMacSync.
unfoldable pub sync_event : Guest → SyncEvent → MacPorts → MacPorts
sync_event g (op_snapshot ls) s = apply_sync_snapshot g ls s
sync_event g (op_add l) s = add_sync_port g l s
sync_event g (op_del l) s = del_sync_port g l s
sync_event g op_ping s = s

unfoldable pub sync_events : Guest → List SyncEvent → MacPorts → MacPorts
sync_events g [] s = s
sync_events g (e ∷ es) s = sync_events g es (sync_event g e s)
