-- ===== src/Mirror/Lifetime.antt =====
-- The life of a reservation of mirror.go: adopted by a listener event, or dropped by its timer.
use drawbridge.Base.{ℕ, ◌+◌, ◌≡◌, true, false, none, some, ◌∷◌, arith}
use drawbridge.Base.Eq.{string_eq}
use drawbridge.Base.Table.{lookup, lookup-insert}
use drawbridge.Mirror.Types.{
  ListenerInfo, MirrorKey, key_eq, key_beq_iff, MirrorEntry, Client, Mac, ReserveReq,
}
use drawbridge.Mirror.Policy.{forget}
use drawbridge.Mirror.Sockets.{register}
use drawbridge.Mirror.Session.{add}
use drawbridge.Mirror.Reserve.{
  tcp_key, effective_ttl, reserve_bound, reserve_bind, handle_reserve, release_if_pending,
}
use drawbridge.Mirror.View.{view_at, can_open}
use drawbridge.Mirror.Reconcile.{asks}
use drawbridge.Mirror.Effects.{add-view, release-view}
use drawbridge.Mirror.Reservations.{reserves}

-- The entry of a new reservation.
abbrev reserved_entry : Mac → Client → MirrorEntry
reserved_entry m c = record { sock = c.next_sock; refs = 0; pending = true; since = m.now }

module _ (m : Mac) (r : ReserveReq) (c : Client) (new : reserves m r c ≡ true) where
  reserve-bound : (handle_reserve m r c).0 ≡ reserve_bound m (tcp_key r.port) c
  unfolding handle_reserve reserve_bind reserves can_open
  reserve-bound = ground arith

  lookup-reserved :
      lookup (tcp_key r.port) (handle_reserve m r c).0.mirrors ≡ some (reserved_entry m c)
  unfolding reserve_bound register forget
  lookup-reserved = rw reserve-bound (
      ground (
        arith,
        key_beq_iff (tcp_key r.port) (tcp_key r.port),
        lookup-insert (tcp_key r.port) (tcp_key r.port) (reserved_entry m c) c.mirrors,
      ))

  -- A new reservation arms a timer for the time to live, which names its key and its socket.
  timer-reserved :
      (handle_reserve m r c).0.timers
      ≡ record { at = m.now + effective_ttl c.config; key = tcp_key r.port; sock = c.next_sock }
        ∷ c.timers
  unfolding reserve_bound register forget
  timer-reserved = rw reserve-bound

  -- The timer of a new reservation drops it if nothing adopted it.
  release-reserved :
      view_at
        (tcp_key r.port)
        (release_if_pending (tcp_key r.port) c.next_sock (handle_reserve m r c).0)
      ≡ none
  release-reserved = ground (
    arith,
    lookup-reserved,
    key_beq_iff (tcp_key r.port) (tcp_key r.port),
    release-view (tcp_key r.port) (tcp_key r.port) c.next_sock (handle_reserve m r c).0,
  )

-- The timer leaves an entry that is not pending as it is, and one with another socket too.
pub release-kept :
    (key : MirrorKey) (sock refs : ℕ) (c : Client)
    → view_at key c ≡ some (refs, false)
    → view_at key (release_if_pending key sock c) ≡ some (refs, false)
release-kept key sock refs c h = ground (arith, release-view key key sock c, key_beq_iff key key)

-- A new reservation holds its port with no reference, and arms a timer for the time to live. If the
-- timer fires before any listener event, the port is free again; if a listener that asks for the
-- port came first, the mirror stands with its one reference and the timer changes nothing.
pub reservation_lifetime :
    (m m' : Mac) (r : ReserveReq) (l : ListenerInfo) (c : Client)
    → reserves m r c ≡ true
    → asks (handle_reserve m r c).0.config l (tcp_key r.port) ≡ true
    → let key = tcp_key r.port in
      let c' = (handle_reserve m r c).0 in
      (view_at key c' ≡ some (0, true))
      × (c'.timers
          ≡ record { at = m.now + effective_ttl c.config; key = key; sock = c.next_sock }
            ∷ c.timers)
      × (view_at key (release_if_pending key c.next_sock c') ≡ none)
      × (view_at key (add m' l c') ≡ some (1, false))
      × (view_at key (release_if_pending key c.next_sock (add m' l c')) ≡ some (1, false))
reservation_lifetime m m' r l c new a =
    let key = tcp_key r.port in
    let c' = (handle_reserve m r c).0 in
    let held : view_at key c' ≡ some (0, true) = ground (arith, lookup-reserved m r c new) in
    let adopted : view_at key (add m' l c') ≡ some (1, false) =
      ground (arith, held, a, add-view key m' l c') in
    (
      held,
      timer-reserved m r c new,
      release-reserved m r c new,
      adopted,
      release-kept key c.next_sock 1 (add m' l c') adopted,
    )
