-- ===== src/Mirror/Refs.antt =====
-- Reference counts of mirror.go: a mirror never outlives the guest listeners it stands for.
use drawbridge.Base.{
  ℕ, suc, ◌+◌, ◌≤◌, ◌≡◌, refl, ◌∙◌, Bool, false, Option, none, some, List, [], ◌∷◌, arith,
  Bool-cases, inl, inr,
}
use drawbridge.Base.Eq.{string_eq}
use drawbridge.Base.Table.{lookup}
use drawbridge.Mirror.Types.{
  ListenerInfo, MirrorKey, key_eq, key_beq_iff, Config, Client, Mac, Event, new_client,
}
use drawbridge.Mirror.Session.{event_listener, handle_event, reconcile, add, del}
use drawbridge.Mirror.Reserve.{release_if_pending}
use drawbridge.Mirror.Steps.{Step, event, session_end, reserve, ttl_fires, step, run}
use drawbridge.Mirror.View.{view_at, can_open}
use drawbridge.Mirror.Reconcile.{asks, demand, reconciled, reconcile-view}
use drawbridge.Mirror.Effects.{added, dropped, add-view, del-view, close_all-view, release-view}
use drawbridge.Ring.{Ring}
use drawbridge.Mirror.Settings.{step-config}
use drawbridge.Mirror.Reservations.{handle_reserve-view}
use drawbridge.Mirror.Guest.{
  event_cases, guest_event, guest_step, guest_run, remove_one, drops, demand-remove_one,
}

-- A mirror for `n` listeners: a reservation, or one that counts at least one and no more than `n`.
abbrev pub Within : ℕ → Option (ℕ × Bool) → Type 0
Within n none = Unit {0}
Within n (some (refs, pending)) = pending ≡ false → (1 ≤ refs) × (refs ≤ n)

reconciled-Within : (n : ℕ) (opens : Bool) (v : Option (ℕ × Bool)) → Within n (reconciled n opens v)
reconciled-Within n opens none = ground arith
reconciled-Within n opens (some (refs, pending)) = ground arith

added-Within :
    (n : ℕ) (opens : Bool) (v : Option (ℕ × Bool)) → Within n v → Within (suc n) (added opens v)
added-Within n opens none h = ground arith
added-Within n opens (some (refs, pending)) h = ground arith

dropped-Within : (n k : ℕ) (v : Option (ℕ × Bool)) → n ≤ k + 1 → Within n v → Within k (dropped v)
dropped-Within n k none le h = tt
dropped-Within n k (some (refs, pending)) le h = ground arith

Within-mono : (n k : ℕ) (v : Option (ℕ × Bool)) → n ≤ k → Within n v → Within k v
Within-mono n k none le h = tt
Within-mono n k (some (refs, pending)) le h = ground arith

release-Within :
    (n : ℕ) (key : MirrorKey) (sock : ℕ) (c : Client) (j : MirrorKey)
    → Within n (view_at j c)
    → Within n (view_at j (release_if_pending key sock c))
release-Within n key sock c j h = ground (arith, release-view j key sock c, key_beq_iff key j)

-- The client beside the guest's listeners.
abbrev pub Tracks : Config → List ListenerInfo → Client → Type 0
Tracks cfg guest c =
    (c.config ≡ cfg) × ((j : MirrorKey) → Within (demand cfg guest j) (view_at j c))

module _ (cfg : Config) (guest : List ListenerInfo) (c : Client) (t : Tracks cfg guest c) where
  reconcile-Within :
      (m : Mac) (ls : List ListenerInfo) (j : MirrorKey)
      → Within (demand cfg ls j) (view_at j (reconcile m ls c))
  reconcile-Within m ls j =
      rw (reconcile-view j m ls c, t.0)
        (reconciled-Within (demand cfg ls j) (can_open m j) (view_at j c))

  add-Within :
      (m : Mac) (l : ListenerInfo) (j : MirrorKey)
      → Within (demand cfg (l ∷ guest) j) (view_at j (add m l c))
  unfolding demand
  add-Within m l j = elim (Bool-cases (asks cfg l j)) [
    | inl q ↦
        rw (add-view j m l c, t.0, q)
          (added-Within (demand cfg guest j) (can_open m j) (view_at j c) (t.1 j))
    | inr q ↦ rw (add-view j m l c, t.0, q) (t.1 j)
  ]

  del-Within :
      (l : ListenerInfo) (j : MirrorKey)
      → Within (demand cfg (remove_one l guest) j) (view_at j (del l c))
  del-Within l j =
      let n = demand cfg guest j in
      let k = demand cfg (remove_one l guest) j in
      let le = demand-remove_one cfg l guest j in
      elim (Bool-cases (drops cfg l j)) [
        | inl q ↦
            rw (del-view j l c, t.0, q)
              (dropped-Within n k (view_at j c) (ground (arith, le)) (t.1 j))
        | inr q ↦
            rw (del-view j l c, t.0, q) (Within-mono n k (view_at j c) (ground (arith, le)) (t.1 j))
      ]

  event-Within :
      (m : Mac) (ev : Event) (j : MirrorKey)
      → Within (demand cfg (guest_event ev guest) j) (view_at j (handle_event m ev c))
  event-Within m ev j =
      event_cases (λ guest' c'. Within (demand cfg guest' j) (view_at j c')) m ev guest c
        (reconcile-Within m ev.listeners j) (add-Within m (event_listener ev) j)
        (del-Within (event_listener ev) j) (t.1 j)

  step-Within :
      (s : Step) (j : MirrorKey) → Within (demand cfg (guest_step s guest) j) (view_at j (step s c))
  unfolding step guest_step
  step-Within (event m ev) j = event-Within m ev j
  step-Within session_end j = rw (close_all-view j c) tt
  step-Within (reserve m r) j = let h = t.1 j in ground (arith, h, handle_reserve-view j m r c)
  step-Within (ttl_fires key sock) j = release-Within (demand cfg guest j) key sock c j (t.1 j)

run-Tracks :
    (cfg : Config) (ss : List Step) (guest : List ListenerInfo) (c : Client)
    → Tracks cfg guest c
    → Tracks cfg (guest_run ss guest) (run ss c)
unfolding run guest_run
run-Tracks cfg [] guest c t = t
run-Tracks cfg (s ∷ ss) guest c t =
    run-Tracks cfg ss (guest_step s guest) (step s c)
      (step-config s c ∙ t.0, step-Within cfg guest c t s)

-- Whatever the order of events, reservations, expiries and ends of sessions, and whatever the Mac
-- answers: a mirror that is no pending reservation counts at least one reference, and no more than
-- the listeners that ask for its key in the guest's set as the events tell it. So when the last of
-- them is gone, the mirror is too.
pub refs-le-demand :
    (cfg : Config) (ring : Option Ring) (ss : List Step) (j : MirrorKey)
    → Within (demand cfg (guest_run ss []) j) (view_at j (run ss (new_client cfg ring)))
refs-le-demand cfg ring ss j =
    (run-Tracks cfg ss [] (new_client cfg ring) (unfold new_client lookup in (refl, λ k. tt))).1 j
