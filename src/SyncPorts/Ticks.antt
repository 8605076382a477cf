-- ===== src/SyncPorts/Ticks.antt =====
-- One tick of the Mac's syncer, as the agent's ports show it.
use drawbridge.Base.{
  ◌≡◌, refl, sym, ap, is_some, ◌∙◌, Bool, true, false, not, ◌&&◌, ◌||◌, List, [], ◌∷◌, ◌++◌, map,
  any, keep, arith,
}
use drawbridge.Base.Eq.{contains}
use drawbridge.Base.Table.{lookup}
use drawbridge.Base.Sets.{any-contains}
use drawbridge.MacSync.Listeners.{Listener, listener_eq, listener_beq_iff}
use drawbridge.MacSync.Syncer.{SyncEvent, op_add, op_del, tick_events}
use drawbridge.AgentReserve.{PortId}
use drawbridge.SyncPorts.{port_id_eq, MacPorts, Guest, id_of, sync_events}
use drawbridge.SyncPorts.View.{Willing, Exclusive, is_id}
use drawbridge.SyncPorts.Served.{
  IsCoherent, Serves, Serves-of, Serves-registered, sync_events-IsCoherent,
}
use drawbridge.SyncPorts.Track.{
  on_port, all_addressed, events_addressed, heard_ports, sync_events-Owns,
}

-- The listeners of one set that are not, or are, in another.
abbrev pub gone : List Listener → List Listener → List Listener
gone last cur = keep (λ l. not (contains l cur)) last

abbrev pub both : List Listener → List Listener → List Listener
both last cur = keep (λ l. contains l cur) last

any-keep :
    (p q : Listener → Bool) (ls : List Listener) → any p (keep q ls) ≡ any (λ l. q l && p l) ls
any-keep p q [] = refl
any-keep p q (l ∷ ls) = ground (arith, any-keep p q ls)

any-split :
    (p q : Listener → Bool) (ls : List Listener)
    → any p ls ≡ (any p (keep (λ l. not (q l)) ls) || any p (keep q ls))
any-split p q [] = refl
any-split p q (l ∷ ls) = ground (arith, any-split p q ls)

-- A listener of a part of `last` that is in `cur` is one of `cur` that is in `last`.
any-both :
    (p : Listener → Bool) (part last cur : List Listener)
    → ((l : Listener) → contains l part ≡ true → contains l last ≡ true)
    → any (λ l. contains l cur && p l) part ≡ true
    → any (λ l. contains l last && p l) cur ≡ true
unfolding contains
any-both p [] last cur sub h = ground arith
any-both p (l ∷ part) last cur sub h = ground (
  arith,
  sub l,
  listener_beq_iff l l,
  any-contains (λ x. contains x last && p x) l cur,
  any-both p part last cur (λ x (e : contains x part ≡ true). sub x (ground (arith, e))),
)

both_sym :
    (p : Listener → Bool) (last cur : List Listener) → any p (both last cur) ≡ any p (both cur last)
both_sym p last cur = ground (
  arith,
  any-keep p (λ l. contains l cur) last,
  any-keep p (λ l. contains l last) cur,
  any-both p last last cur (λ l e. e),
  any-both p cur cur last (λ l e. e),
)

heard-dels :
    (j : PortId) (ds : List Listener) (es : List SyncEvent) (b : Bool)
    → heard_ports j (map op_del ds ++ es) b ≡ heard_ports j es (b && not (on_port j ds))
heard-dels j [] es b = ap (heard_ports j es) (ground arith)
heard-dels j (d ∷ ds) es b =
    heard-dels j ds es (b && not (is_id j (id_of d))) ∙ ap (heard_ports j es) (ground arith)

heard-adds :
    (j : PortId) (as' : List Listener) (b : Bool)
    → heard_ports j (map op_add as') b ≡ (b || on_port j as')
heard-adds j [] b = ground arith
heard-adds j (a ∷ as') b = heard-adds j as' (is_id j (id_of a) || b) ∙ ground arith

heard-tick_events :
    (j : PortId) (last cur : List Listener) (b : Bool)
    → heard_ports j (tick_events last cur) b
      ≡ (b && not (on_port j (gone last cur)) || on_port j (gone cur last))
unfolding tick_events
heard-tick_events j last cur b =
    heard-dels j (gone last cur) (map op_add (gone cur last)) b
    ∙ heard-adds j (gone cur last) (b && not (on_port j (gone last cur)))

dels-addressed :
    (ds : List Listener) (es : List SyncEvent)
    → events_addressed (map op_del ds ++ es) ≡ events_addressed es
dels-addressed [] es = refl
dels-addressed (d ∷ ds) es = dels-addressed ds es

adds-addressed :
    (p : Listener → Bool) (ls : List Listener)
    → all_addressed ls ≡ true
    → events_addressed (map op_add (keep p ls)) ≡ true
adds-addressed p [] h = refl
adds-addressed p (l ∷ ls) h = ground (arith, h, adds-addressed p ls)

tick_events-addressed :
    (last cur : List Listener)
    → all_addressed cur ≡ true
    → events_addressed (tick_events last cur) ≡ true
unfolding tick_events
tick_events-addressed last cur h =
    dels-addressed (gone last cur) (map op_add (gone cur last))
    ∙ adds-addressed (λ l. not (contains l last)) cur h

registered-tick_events :
    (g : Guest) (j : PortId) (last cur : List Listener) (s : MacPorts)
    → Willing g
    → Exclusive s
    → all_addressed cur ≡ true
    → Serves j (on_port j last) s
    → is_some (lookup j (sync_events g (tick_events last cur) s).mac)
      ≡ (on_port j last && not (on_port j (gone last cur)) || on_port j (gone cur last))
registered-tick_events g j last cur s w x v h =
    let owned : contains j s.sync_owned ≡ on_port j last =
      sym (x j) ∙ Serves-registered j (on_port j last) s h in
    (sync_events-Owns g (tick_events last cur) j s w (tick_events-addressed last cur v) x).1
    ∙ heard-tick_events j last cur (contains j s.sync_owned)
    ∙ ap (λ b. b && not (on_port j (gone last cur)) || on_port j (gone cur last)) owned

tick_events-IsCoherent :
    (g : Guest) (last cur : List Listener) (s : MacPorts)
    → Willing g
    → IsCoherent s
    → IsCoherent (sync_events g (tick_events last cur) s)
tick_events-IsCoherent g last cur s w c =
    sync_events-IsCoherent g (tick_events last cur) s (λ id. (w id).2) c

-- If the agent serves a port exactly when the Mac had a listener on it, then after the next tick it
-- serves the port exactly when the Mac has one now; unless the port kept one listener and lost
-- another. A port that is served has an entry, its key is in the BPF map and its proxy listens; one
-- that is not has no entry, no key in the map and no proxy. Each listener has an address; the guest
-- refuses nothing, and registers Mac ports for the session alone; and at first the map's keys and the
-- proxies are the entries' own.
pub sync_events-tick_events :
    (g : Guest) (j : PortId) (last cur : List Listener) (s : MacPorts)
    → Willing g
    → Exclusive s
    → IsCoherent s
    → all_addressed cur ≡ true
    → Serves j (on_port j last) s
    → on_port j (gone last cur) && on_port j (both last cur) ≡ false
    → Serves j (on_port j cur) (sync_events g (tick_events last cur) s)
sync_events-tick_events g j last cur s w x c v h single =
    let p = λ (l : Listener). is_id j (id_of l) in
    Serves-of j (on_port j cur) (sync_events g (tick_events last cur) s)
      (tick_events-IsCoherent g last cur s w c)
      (ground (
        arith,
        registered-tick_events g j last cur s w x v h,
        any-split p (λ l. contains l cur) last,
        any-split p (λ l. contains l last) cur,
        both_sym p last cur,
        single,
      ))

-- In that case the agent stops serving a port on which the Mac still has a listener, unless the tick
-- brings a new one on it: no entry, no key in the BPF map and no proxy is left for it. The event names
-- the listener's address, and the agent drops the port.
pub sync_events-loses :
    (g : Guest) (j : PortId) (last cur : List Listener) (s : MacPorts)
    → Willing g
    → Exclusive s
    → IsCoherent s
    → all_addressed cur ≡ true
    → Serves j (on_port j last) s
    → on_port j (gone last cur) ≡ true
    → on_port j (both last cur) ≡ true
    → on_port j (gone cur last) ≡ false
    → (on_port j cur ≡ true) × Serves j false (sync_events g (tick_events last cur) s)
sync_events-loses g j last cur s w x c v h lost kept none_new =
    let p = λ (l : Listener). is_id j (id_of l) in
    (
      ground (arith, any-split p (λ l. contains l last) cur, both_sym p last cur, kept),
      Serves-of j false (sync_events g (tick_events last cur) s)
          (tick_events-IsCoherent g last cur s w c)
          (ground (arith, registered-tick_events g j last cur s w x v h, lost, none_new)),
    )
