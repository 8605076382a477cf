-- ===== src/SyncPorts/Track.antt =====
-- The session's ports follow the Mac's set: the events of macsync.Syncer, applied by the agent.
use mathlib.Core.Path.{subst}
use drawbridge.Base.{
  ◌≡◌, refl, Bool, true, not, ◌&&◌, ◌||◌, Option, none, some, List, [], ◌∷◌, if-both, is_some, any,
  keep, arith,
}
use drawbridge.Base.Eq.{◌==◌, contains}
use drawbridge.Base.Table.{lookup, insert, delete, lookup-insert}
use drawbridge.Base.Sets.{contains-keep}
use drawbridge.MacSync.Listeners.{Listener, listener_eq}
use drawbridge.MacSync.Syncer.{SyncEvent, op_snapshot, op_add, op_del, op_ping}
use drawbridge.AgentReserve.{PortId}
use drawbridge.SyncPorts.{
  port_id_beq, port_id_eq, MacPorts, Guest, remove_mac_ports, id_of, has_addr, add_sync_port,
  want_one, wants, add_wanted, apply_sync_snapshot, sync_event, sync_events,
}
use drawbridge.SyncPorts.View.{
  Willing, Exclusive, is_id, Owns, Owns-Exclusive, add_sync_port-Owns, del_sync_port-Owns,
  remove_mac_ports-Owns,
}

-- Some listener of the list has the port id.
abbrev pub on_port : PortId → List Listener → Bool
on_port j ls = any (λ l. is_id j (id_of l)) ls

abbrev pub all_addressed : List Listener → Bool
all_addressed [] = true
all_addressed (l ∷ ls) = has_addr l.addr && all_addressed ls

-- What add_wanted adds for an entry.
abbrev entry_id : PortId × Listener → Option PortId
entry_id (id, l) = id_of (record l { port = id.port })

-- Each entry's listener has an address, and the entry's id, as far as `j` can tell.
abbrev Matched : PortId → List (PortId × Listener) → Type 0
Matched j [] = true ≡ true
Matched j (p ∷ rest) =
    (is_id j (entry_id p) ≡ port_id_beq p.0 j) × (has_addr p.1.addr ≡ true) × Matched j rest

delete-Matched :
    (j id : PortId) (m : List (PortId × Listener)) → Matched j m → Matched j (delete id m)
unfolding delete
delete-Matched j id [] h = refl
delete-Matched j id ((k, l) ∷ rest) h =
    if-both (Matched j) (k == id) _ _ (delete-Matched j id rest h.2)
      (h.0, h.1, delete-Matched j id rest h.2)

entry_id-id_of :
    (j id : PortId) (l : Listener)
    → id_of l ≡ some id
    → is_id j (entry_id (id, l)) ≡ port_id_beq id j
entry_id-id_of j id l h = ground (arith, h)

want_one-Matched :
    (j : PortId) (o : Option PortId) (l : Listener) (m : List (PortId × Listener))
    → id_of l ≡ o
    → has_addr l.addr ≡ true
    → Matched j m
    → Matched j (want_one o l m)
      × (is_some (lookup j (want_one o l m)) ≡ (is_id j o || is_some (lookup j m)))
unfolding want_one insert
want_one-Matched j none l m e v h = (h, refl)
want_one-Matched j (some id) l m e v h =
    ((entry_id-id_of j id l e, v, delete-Matched j id m h), ground (arith, lookup-insert id j l m))

wants-Matched :
    (j : PortId) (ls : List Listener) (m : List (PortId × Listener))
    → all_addressed ls ≡ true
    → Matched j m
    → Matched j (wants ls m)
      × (is_some (lookup j (wants ls m)) ≡ (on_port j ls || is_some (lookup j m)))
unfolding wants
wants-Matched j [] m v h = (h, refl)
wants-Matched j (l ∷ ls) m v h =
    let one = want_one-Matched j (id_of l) l m refl (ground (arith, v)) h in
    let more = wants-Matched j ls (want_one (id_of l) l m) (ground (arith, v)) one.0 in
    (more.0, ground (arith, more.1, one.1))

any-Matched :
    (j : PortId) (m : List (PortId × Listener))
    → Matched j m
    → any (λ p. is_id j (entry_id p)) m ≡ is_some (lookup j m)
unfolding lookup
any-Matched j [] h = refl
any-Matched j ((k, l) ∷ rest) h = ground (arith, h.0, any-Matched j rest h.2)

add_wanted-Owns :
    (g : Guest) (m : List (PortId × Listener)) (j k : PortId) (s : MacPorts)
    → Willing g
    → Matched k m
    → Exclusive s
    → Owns j (any (λ p. is_id j (entry_id p)) m || contains j s.sync_owned) (add_wanted g m s)
unfolding add_wanted
add_wanted-Owns g [] j k s w v x = (refl, x j)
add_wanted-Owns g ((id, l) ∷ rest) j k s w v x =
    let l' : Listener = record l { port = id.port } in
    let one = λ (i : PortId). add_sync_port-Owns g l' i s w v.1 x in
    let t = add_sync_port g l' s in
    let more =
      add_wanted-Owns g rest j k t w v.2
        (Owns-Exclusive (λ i. is_id i (id_of l') || contains i s.sync_owned) t one) in
    ground (arith, more, one j)

apply_sync_snapshot-Owns :
    (g : Guest) (ls : List Listener) (j : PortId) (s : MacPorts)
    → Willing g
    → all_addressed ls ≡ true
    → Exclusive s
    → Owns j (on_port j ls) (apply_sync_snapshot g ls s)
unfolding apply_sync_snapshot lookup
apply_sync_snapshot-Owns g ls j s w v x =
    let want = wants ls [] in
    let stale = keep (λ id. not (is_some (lookup id want))) s.sync_owned in
    let matched = wants-Matched j ls [] v refl in
    let t = remove_mac_ports g stale s in
    let left = λ (i : PortId). remove_mac_ports-Owns g stale i s x in
    let all =
      add_wanted-Owns g want j j t w matched.0
        (Owns-Exclusive (λ i. contains i s.sync_owned && not (contains i stale)) t left) in
    ground (
      arith,
      all,
      left j,
      matched.1,
      any-Matched j want matched.0,
      contains-keep (λ id. not (is_some (lookup id want))) j s.sync_owned,
    )

-- The events' effect on one port.
abbrev pub heard_port : PortId → SyncEvent → Bool → Bool
heard_port j (op_snapshot ls) b = on_port j ls
heard_port j (op_add l) b = is_id j (id_of l) || b
heard_port j (op_del l) b = b && not (is_id j (id_of l))
heard_port j op_ping b = b

abbrev pub heard_ports : PortId → List SyncEvent → Bool → Bool
heard_ports j [] b = b
heard_ports j (e ∷ es) b = heard_ports j es (heard_port j e b)

-- Each listener that an event brings has an address.
abbrev pub addressed : SyncEvent → Bool
addressed (op_snapshot ls) = all_addressed ls
addressed (op_add l) = has_addr l.addr
addressed (op_del l) = true
addressed op_ping = true

abbrev pub events_addressed : List SyncEvent → Bool
events_addressed [] = true
events_addressed (e ∷ es) = addressed e && events_addressed es

sync_event-Owns :
    (g : Guest) (e : SyncEvent) (j : PortId) (s : MacPorts)
    → Willing g
    → addressed e ≡ true
    → Exclusive s
    → Owns j (heard_port j e (contains j s.sync_owned)) (sync_event g e s)
unfolding sync_event
sync_event-Owns g (op_snapshot ls) j s w v x = apply_sync_snapshot-Owns g ls j s w v x
sync_event-Owns g (op_add l) j s w v x = add_sync_port-Owns g l j s w v x
sync_event-Owns g (op_del l) j s w v x = del_sync_port-Owns g l j s x
sync_event-Owns g op_ping j s w v x = (refl, x j)

pub sync_events-Owns :
    (g : Guest) (es : List SyncEvent) (j : PortId) (s : MacPorts)
    → Willing g
    → events_addressed es ≡ true
    → Exclusive s
    → Owns j (heard_ports j es (contains j s.sync_owned)) (sync_events g es s)
unfolding sync_events
sync_events-Owns g [] j s w v x = (refl, x j)
sync_events-Owns g (e ∷ es) j s w v x =
    let one = λ (i : PortId). sync_event-Owns g e i s w (ground (arith, v)) x in
    let t = sync_event g e s in
    let more =
      sync_events-Owns g es j t w (ground (arith, v))
        (Owns-Exclusive (λ i. heard_port i e (contains i s.sync_owned)) t one) in
    subst (λ b. Owns j (heard_ports j es b) (sync_events g es t)) (one j).0 more
