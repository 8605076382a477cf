-- ===== src/Mirror/Leaks.antt =====
-- No operation of mirror.go leaks a socket, or closes one that a mirror still uses.
use drawbridge.Base.{
  ℕ, ◌+◌, ◌-◌, ◌≡◌, refl, true, false, Option, none, List, [], ◌∷◌, arith, Bool-cases, Option-cases,
  inl, inr,
}
use drawbridge.Base.Eq.{string_eq, nat_eq, contains}
use drawbridge.Base.Table.{lookup, keys}
use drawbridge.Ring.{Ring}
use drawbridge.Mirror.Types.{
  ListenerInfo, MirrorKey, key_eq, Config, Client, Mac, ReserveReq, new_client,
}
use drawbridge.Mirror.Policy.{observe, declined, note_skip}
use drawbridge.Mirror.Sockets.{close_mirror, log_bind_error, bind_mirror, open_locked}
use drawbridge.Mirror.Session.{
  key_of, wanted, tally_one, tally, settle_entry, settle, open_missing_one, open_missing, reconcile,
  add_key, add, del_key, del, event_listener, close_keys, close_all,
}
use drawbridge.Mirror.Reserve.{
  tcp_key, reserve_bound, reserve_bind, handle_reserve, release_entry, release_if_pending,
}
use drawbridge.Mirror.Steps.{Step, event, session_end, reserve, ttl_fires, step, run}
use drawbridge.Mirror.Guest.{event_cases}
use drawbridge.Mirror.Effects.{close_all-view}
use drawbridge.Mirror.Owned.{
  Same-observe, Same-declined, IsOwned, IsOwned-Same, register-IsOwned, close_mirror-IsOwned,
  update-IsOwned,
}

open_locked-IsOwned :
    (m : Mac) (key : MirrorKey) (n : ℕ) (c : Client)
    → IsOwned c
    → lookup key c.mirrors ≡ none
    → IsOwned (open_locked m key n c)
unfolding open_locked bind_mirror log_bind_error
open_locked-IsOwned m key n c h free =
    let noted =
      IsOwned-Same c (observe m.now key "bind-failed" c) (Same-observe m.now key "bind-failed" c)
        h in
    ground (arith, noted, register-IsOwned c h m key n false free)

tally_one-IsOwned :
    (now : ℕ) (l : ListenerInfo) (acc : List (MirrorKey × ℕ) × List MirrorKey × Client)
    → IsOwned acc.2
    → IsOwned (tally_one now l acc).2
unfolding tally_one
tally_one-IsOwned now l acc h =
    let noted =
      IsOwned-Same acc.2 (declined now l.proto l.port acc.2).0
        (Same-declined now l.proto l.port acc.2) h in
    ground (arith, h, noted)

tally-IsOwned :
    (now : ℕ) (ls : List ListenerInfo) (acc : List (MirrorKey × ℕ) × List MirrorKey × Client)
    → IsOwned acc.2
    → IsOwned (tally now ls acc).2
unfolding tally
tally-IsOwned now [] acc h = h
tally-IsOwned now (l ∷ ls) acc h =
    tally-IsOwned now ls (tally_one now l acc) (tally_one-IsOwned now l acc h)

settle_entry-IsOwned :
    (n : ℕ) (key : MirrorKey) (c : Client)
    → IsOwned c
    → IsOwned (settle_entry n key (lookup key c.mirrors) c)
unfolding settle_entry
settle_entry-IsOwned n key c h = elim (Option-cases (lookup key c.mirrors)) [
  | inl q ↦ rw (q, settle_entry) h
  | inr (e, q) ↦
      rw (q, settle_entry)
        (ground (
          arith,
          h,
          close_mirror-IsOwned c h key e q,
          update-IsOwned c h key e (record e { pending = false; refs = n }) q refl,
        ))
]

settle-IsOwned :
    (want : List (MirrorKey × ℕ)) (ks : List MirrorKey) (c : Client)
    → IsOwned c
    → IsOwned (settle want ks c)
unfolding settle
settle-IsOwned want [] c h = h
settle-IsOwned want (k ∷ ks) c h =
    settle-IsOwned want ks _ (settle_entry-IsOwned (wanted want k) k c h)

open_missing-IsOwned :
    (m : Mac) (want : List (MirrorKey × ℕ)) (ks : List MirrorKey) (c : Client)
    → IsOwned c
    → IsOwned (open_missing m want ks c)
unfolding open_missing open_missing_one
open_missing-IsOwned m want [] c h = h
open_missing-IsOwned m want (k ∷ ks) c h = elim (Option-cases (lookup k c.mirrors)) [
  | inl q ↦
      rw (q, open_missing_one)
        (open_missing-IsOwned m want ks _ (open_locked-IsOwned m k (wanted want k) c h q))
  | inr (e, q) ↦ rw (q, open_missing_one) (open_missing-IsOwned m want ks c h)
]

reconcile-IsOwned :
    (m : Mac) (ls : List ListenerInfo) (c : Client) → IsOwned c → IsOwned (reconcile m ls c)
unfolding reconcile
reconcile-IsOwned m ls c h =
    open_missing-IsOwned m _ _ _ (settle-IsOwned _ _ _ (tally-IsOwned m.now ls ([], [], c) h))

add_key-IsOwned :
    (m : Mac) (key : MirrorKey) (c : Client)
    → IsOwned c
    → IsOwned (add_key m key (lookup key c.mirrors) c)
unfolding add_key
add_key-IsOwned m key c h = elim (Option-cases (lookup key c.mirrors)) [
  | inl q ↦ rw (q, add_key) (open_locked-IsOwned m key 1 c h q)
  | inr (e, q) ↦
      rw (q, add_key)
        (ground (
          arith,
          update-IsOwned c h key e (record e { pending = false; refs = 1 }) q refl,
          update-IsOwned c h key e (record e { refs = e.refs + 1 }) q refl,
        ))
]

add-IsOwned : (m : Mac) (l : ListenerInfo) (c : Client) → IsOwned c → IsOwned (add m l c)
unfolding add
add-IsOwned m l c h =
    let noted =
      IsOwned-Same c (declined m.now l.proto l.port c).0 (Same-declined m.now l.proto l.port c) h in
    ground (arith, h, noted, add_key-IsOwned m (key_of l) (declined m.now l.proto l.port c).0 noted)

del-IsOwned : (l : ListenerInfo) (c : Client) → IsOwned c → IsOwned (del l c)
unfolding del del_key
del-IsOwned l c h = elim (Option-cases (lookup (key_of l) c.mirrors)) [
  | inl q ↦ ground (arith, h)
  | inr (e, q) ↦ ground (
    arith,
    h,
    close_mirror-IsOwned c h (key_of l) e q,
    update-IsOwned c h (key_of l) e (record e { refs = e.refs - 1 }) q refl,
  )
]

close_keys-IsOwned : (ks : List MirrorKey) (c : Client) → IsOwned c → IsOwned (close_keys ks c)
unfolding close_keys
close_keys-IsOwned [] c h = h
close_keys-IsOwned (k ∷ ks) c h = elim (Option-cases (lookup k c.mirrors)) [
  | inl q ↦ rw q (close_keys-IsOwned ks c h)
  | inr (e, q) ↦ rw q (close_keys-IsOwned ks (close_mirror k e c) (close_mirror-IsOwned c h k e q))
]

handle_reserve-IsOwned :
    (m : Mac) (r : ReserveReq) (c : Client) → IsOwned c → IsOwned (handle_reserve m r c).0
unfolding handle_reserve note_skip reserve_bind reserve_bound
handle_reserve-IsOwned m r c h =
    let noted =
      IsOwned-Same c (observe m.now (tcp_key r.port) "skipped" c)
        (Same-observe m.now (tcp_key r.port) "skipped" c) h in
    elim (Option-cases (lookup (tcp_key r.port) c.mirrors)) [
      | inl q ↦ ground (arith, h, noted, register-IsOwned c h m (tcp_key r.port) 0 true q)
      | inr (e, q) ↦ ground (arith, h, noted)
    ]

release-IsOwned :
    (key : MirrorKey) (sock : ℕ) (c : Client) → IsOwned c → IsOwned (release_if_pending key sock c)
unfolding release_if_pending release_entry
release-IsOwned key sock c h = elim (Option-cases (lookup key c.mirrors)) [
  | inl q ↦ ground (arith, h)
  | inr (e, q) ↦ ground (arith, h, close_mirror-IsOwned c h key e q)
]

step-IsOwned : (s : Step) (c : Client) → IsOwned c → IsOwned (step s c)
unfolding step close_all
step-IsOwned (event m ev) c h =
    event_cases (λ _ c'. IsOwned c') m ev [] c (reconcile-IsOwned m ev.listeners c h)
      (add-IsOwned m (event_listener ev) c h) (del-IsOwned (event_listener ev) c h) h
step-IsOwned session_end c h = close_keys-IsOwned (keys c.mirrors) c h
step-IsOwned (reserve m r) c h = handle_reserve-IsOwned m r c h
step-IsOwned (ttl_fires key sock) c h = release-IsOwned key sock c h

run-IsOwned : (ss : List Step) (c : Client) → IsOwned c → IsOwned (run ss c)
unfolding run
run-IsOwned [] c h = h
run-IsOwned (s ∷ ss) c h = run-IsOwned ss (step s c) (step-IsOwned s c h)

new_client-IsOwned : (cfg : Config) (ring : Option Ring) → IsOwned (new_client cfg ring)
unfolding new_client lookup contains
new_client-IsOwned cfg ring = record {
  live = λ j e q. absurd (cc);
  owner = λ s q. absurd (cc);
  distinct = λ j k e f q r s. absurd (cc);
}

-- After any sequence of steps, on any answers of the Mac: every mirror's socket is open and was
-- opened by this client, no two keys share a socket, and every open socket belongs to a mirror.
pub run-new_client-IsOwned :
    (cfg : Config) (ring : Option Ring) (ss : List Step) → IsOwned (run ss (new_client cfg ring))
run-new_client-IsOwned cfg ring ss =
    run-IsOwned ss (new_client cfg ring) (new_client-IsOwned cfg ring)

-- At the end of a session, whatever came before, no socket is open.
pub session_end-closes :
    (cfg : Config) (ring : Option Ring) (ss : List Step) (s : ℕ)
    → contains s (close_all (run ss (new_client cfg ring))).open_socks ≡ false
session_end-closes cfg ring ss s =
    let c = run ss (new_client cfg ring) in
    elim (Bool-cases (contains s (close_all c).open_socks)) [
      | inl q ↦
          let (j, e, p, _) =
            (step-IsOwned session_end c (run-new_client-IsOwned cfg ring ss)).owner s
              (unfold step in q) in
          absurd (unfold step in cc (close_all-view j c, p))
      | inr q ↦ q
    ]
