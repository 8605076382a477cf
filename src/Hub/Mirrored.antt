-- ===== src/Hub/Mirrored.antt =====
-- mirror.go's client on a Mac that lets it open a mirror, from the start of an 'E' session: what it
-- mirrors while the guest's events come as tracker.go sends them.
use drawbridge.Base.{
  ℕ, suc, ◌+◌, ◌≤◌, ◌≡◌, refl, ◌∙◌, Bool, true, false, ◌&&◌, Option, none, some, List, [], ◌∷◌,
  arith, if◌then◌else◌, is_some, Bool-cases, inl, inr,
}
use drawbridge.Base.Eq.{◌==◌, contains, string_eq}
use drawbridge.Mirror.Types.{
  ListenerInfo, MirrorKey, key_eq, key_beq_iff, Config, Client, Mac, Event, ReserveReq,
}
use drawbridge.Mirror.Policy.{skips}
use drawbridge.Mirror.Session.{key_of, event_listener, handle_event, reconcile, add, del}
use drawbridge.Mirror.Reserve.{tcp_key, release_if_pending}
use drawbridge.Mirror.Steps.{Step, event, session_end, reserve, ttl_fires, step, run}
use drawbridge.Mirror.View.{view_at, can_open}
use drawbridge.Mirror.Reconcile.{asks, demand, reconciled, reconcile-view}
use drawbridge.Mirror.Effects.{added, dropped, add-view, del-view, release-view}
use drawbridge.Mirror.Settings.{step-config}
use drawbridge.Mirror.Reservations.{reserves, handle_reserve-view}
use drawbridge.Mirror.Guest.{
  guest_event, guest_step, guest_run, remove_one, listener_beq_iff, drops,
}
use drawbridge.Hub.{listener_eq}
use drawbridge.Hub.Follows.{fits, all_fit}

-- The events that the client handles.
unfoldable pub events_of : List Step → List Event
events_of [] = []
events_of (event m ev ∷ ss) = ev ∷ events_of ss
events_of (session_end ∷ ss) = events_of ss
events_of (reserve m r ∷ ss) = events_of ss
events_of (ttl_fires key sock ∷ ss) = events_of ss

-- The mirror that `n` listeners ask for: with just as many references; for none of them no mirror,
-- or a pending reservation.
abbrev pub Mirrors : ℕ → Option (ℕ × Bool) → Type 0
Mirrors n none = n ≡ 0
Mirrors n (some (refs, pending)) =
    (pending ≡ true → n ≡ 0) × (pending ≡ false → (1 ≤ refs) × (refs ≡ n))

-- At each event the Mac would let the client open the key, and the session does not end.
unfoldable pub allows : MirrorKey → List Step → Bool
allows j [] = true
allows j (event m ev ∷ ss) = can_open m j && allows j ss
allows j (session_end ∷ ss) = false
allows j (reserve m r ∷ ss) = allows j ss
allows j (ttl_fires key sock ∷ ss) = allows j ss

reconciled-Mirrors : (n : ℕ) (v : Option (ℕ × Bool)) → Mirrors n (reconciled n true v)
reconciled-Mirrors n none = ground arith
reconciled-Mirrors n (some (refs, pending)) = ground arith

added-Mirrors : (n : ℕ) (v : Option (ℕ × Bool)) → Mirrors n v → Mirrors (suc n) (added true v)
added-Mirrors n none h = ground arith
added-Mirrors n (some (refs, pending)) h = ground arith

dropped-Mirrors : (n : ℕ) (v : Option (ℕ × Bool)) → Mirrors (suc n) v → Mirrors n (dropped v)
dropped-Mirrors n none h = ground arith
dropped-Mirrors n (some (refs, pending)) h = ground arith

dropped-Mirrors-zero : (v : Option (ℕ × Bool)) → Mirrors 0 v → Mirrors 0 (dropped v)
dropped-Mirrors-zero none h = ground arith
dropped-Mirrors-zero (some (refs, pending)) h = ground arith

reserved-Mirrors :
    (n : ℕ) (b : Bool) (v : Option (ℕ × Bool))
    → (b ≡ true → is_some v ≡ false)
    → Mirrors n v
    → Mirrors n (if b then some (0, true) else v)
reserved-Mirrors n b none e h = ground arith
reserved-Mirrors n b (some (refs, pending)) e h = ground arith

module _ (cfg : Config) (j : MirrorKey) where
  demand-remove_one-held :
      (l : ListenerInfo) (ls : List ListenerInfo)
      → contains l ls ≡ true
      → demand cfg ls j ≡ demand cfg (remove_one l ls) j + (if asks cfg l j then 1 else 0)
  unfolding demand remove_one contains
  demand-remove_one-held l [] h = ground arith
  demand-remove_one-held l (x ∷ xs) h =
      ground (arith, listener_beq_iff x l, demand-remove_one-held l xs)

  demand-skipped : (ls : List ListenerInfo) → skips cfg j.port ≡ true → demand cfg ls j ≡ 0
  unfolding demand asks
  demand-skipped [] h = refl
  demand-skipped (l ∷ ls) h = ground (arith, key_beq_iff (key_of l) j, demand-skipped ls h)

module _ (cfg : Config) (j : MirrorKey) (guest : List ListenerInfo) (c : Client)
    (q : c.config ≡ cfg) (h : Mirrors (demand cfg guest j) (view_at j c)) where
  reconcile-Mirrors :
      (m : Mac) (ls : List ListenerInfo)
      → can_open m j ≡ true
      → Mirrors (demand cfg ls j) (view_at j (reconcile m ls c))
  reconcile-Mirrors m ls o =
      rw (reconcile-view j m ls c, q, o) (reconciled-Mirrors (demand cfg ls j) (view_at j c))

  add-Mirrors :
      (m : Mac) (l : ListenerInfo)
      → can_open m j ≡ true
      → Mirrors (demand cfg (l ∷ guest) j) (view_at j (add m l c))
  unfolding demand
  add-Mirrors m l o = elim (Bool-cases (asks cfg l j)) [
    | inl a ↦ rw (add-view j m l c, q, a, o) (added-Mirrors (demand cfg guest j) (view_at j c) h)
    | inr a ↦ rw (add-view j m l c, q, a) h
  ]

  del_asked-Mirrors :
      (l : ListenerInfo) (n k : ℕ) (v : Option (ℕ × Bool))
      → n ≡ k + (if asks cfg l j then 1 else 0)
      → (asks cfg l j ≡ false → drops cfg l j ≡ true → n ≡ 0)
      → Mirrors n v
      → Mirrors k (if drops cfg l j then dropped v else v)
  unfolding asks
  del_asked-Mirrors l n k none e z t = ground arith
  del_asked-Mirrors l n k (some (refs, pending)) e z t = ground arith

  del-Mirrors :
      (l : ListenerInfo)
      → contains l guest ≡ true
      → Mirrors (demand cfg (remove_one l guest) j) (view_at j (del l c))
  unfolding asks
  del-Mirrors l held =
      rw (del-view j l c, q)
        (del_asked-Mirrors l (demand cfg guest j) (demand cfg (remove_one l guest) j) (view_at j c)
          (demand-remove_one-held cfg j l guest held)
          (λ a d. ground (arith, key_beq_iff (key_of l) j, demand-skipped cfg j guest)) h)

  event-Mirrors :
      (m : Mac) (ev : Event)
      → can_open m j ≡ true
      → fits ev guest ≡ true
      → Mirrors (demand cfg (guest_event ev guest) j) (view_at j (handle_event m ev c))
  unfolding guest_event handle_event fits
  event-Mirrors m ev o f = elim (Bool-cases (ev.op == "snapshot")) [
    | inl s ↦ rw s (reconcile-Mirrors m ev.listeners o)
    | inr s ↦ elim (Bool-cases (ev.op == "add")) [
      | inl a ↦ rw (s, a) (add-Mirrors m (event_listener ev) o)
      | inr a ↦ elim (Bool-cases (ev.op == "del")) [
        | inl d ↦ rw (s, a, d) (del-Mirrors (event_listener ev) (ground (arith, f, d)))
        | inr d ↦ rw (s, a, d) h
      ]
    ]
  ]

  reserve-Mirrors :
      (m : Mac) (r : ReserveReq) → Mirrors (demand cfg guest j) (view_at j (step (reserve m r) c))
  unfolding step reserves
  reserve-Mirrors m r = rw (handle_reserve-view j m r c) (
      reserved-Mirrors (demand cfg guest j) (reserves m r c && tcp_key r.port == j) (view_at j c)
        (λ e. ground (arith, key_beq_iff (tcp_key r.port) j, e)) h)

  expiry-Mirrors :
      (key : MirrorKey) (sock : ℕ)
      → Mirrors (demand cfg guest j) (view_at j (release_if_pending key sock c))
  expiry-Mirrors key sock = ground (arith, h, release-view j key sock c, key_beq_iff key j)

-- The rest of a session.
pub run-Mirrors :
    (cfg : Config) (j : MirrorKey) (ss : List Step) (guest : List ListenerInfo) (c : Client)
    → c.config ≡ cfg
    → allows j ss ≡ true
    → all_fit (events_of ss) guest ≡ true
    → Mirrors (demand cfg guest j) (view_at j c)
    → Mirrors (demand cfg (guest_run ss guest) j) (view_at j (run ss c))
unfolding run guest_run guest_step step allows all_fit events_of
run-Mirrors cfg j [] guest c q o f h = h
run-Mirrors cfg j (event m ev ∷ ss) guest c q o f h =
    run-Mirrors cfg j ss (guest_event ev guest) (step (event m ev) c)
      (step-config (event m ev) c ∙ q) (ground (arith, o)) (ground (arith, f))
      (event-Mirrors cfg j guest c q h m ev (ground (arith, o)) (ground (arith, f)))
run-Mirrors cfg j (session_end ∷ ss) guest c q o f h = ground (arith, o)
run-Mirrors cfg j (reserve m r ∷ ss) guest c q o f h =
    run-Mirrors cfg j ss guest (step (reserve m r) c) (step-config (reserve m r) c ∙ q) o f
      (reserve-Mirrors cfg j guest c q h m r)
run-Mirrors cfg j (ttl_fires key sock ∷ ss) guest c q o f h =
    run-Mirrors cfg j ss guest (step (ttl_fires key sock) c)
      (step-config (ttl_fires key sock) c ∙ q) o f (expiry-Mirrors cfg j guest c q h key sock)
