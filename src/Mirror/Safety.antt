-- ===== src/Mirror/Safety.antt =====
-- Which ports mirror.go may ever hold: the skip-list, the agent's own ports, native Mac services.
use drawbridge.Base.{
  ℕ, ◌≡◌, refl, ◌∙◌, Bool, true, false, not, ◌&&◌, Option, none, some, List, [], ◌∷◌, arith,
  Bool-cases, inl, inr, eqb,
}
use drawbridge.Base.Eq.{◌==◌, string_eq}
use drawbridge.Base.Table.{lookup}
use drawbridge.Ring.{Ring}
use drawbridge.Mirror.Types.{
  ListenerInfo, MirrorKey, key_eq, key_beq_iff, Config, Client, Mac, Event, ReserveReq, new_client,
}
use drawbridge.Mirror.Policy.{mirrorable, proto_mirrorable, effective_agent_port, skips}
use drawbridge.Mirror.Session.{key_of, event_listener, handle_event, add, del}
use drawbridge.Mirror.Guest.{event_cases}
use drawbridge.Mirror.Reserve.{tcp_key, handle_reserve, release_if_pending}
use drawbridge.Mirror.Steps.{Step, event, session_end, reserve, ttl_fires, step, run}
use drawbridge.Mirror.View.{view_at, can_open}
use drawbridge.Mirror.Reconcile.{asks, demand, reconciled, reconcile-view}
use drawbridge.Mirror.Effects.{added, dropped, add-view, del-view, close_all-view, release-view}
use drawbridge.Mirror.Settings.{step-config}
use drawbridge.Mirror.Reservations.{reserves, handle_reserve-view}

-- A key that a guest listener may be mirrored at.
unfoldable pub servable : Config → MirrorKey → Bool
servable cfg j =
    not (skips cfg j.port)
    && not (eqb j.port 0)
    && not (eqb j.port cfg.agent_port)
    && not (eqb j.port (effective_agent_port cfg))
    && proto_mirrorable j.proto j.port

-- A key that may be reserved.
unfoldable pub reservable : Config → MirrorKey → Bool
reservable cfg j = not (skips cfg j.port) && not (eqb j.port 0) && j.proto == "tcp"

abbrev pub Allowed : Config → MirrorKey → Option (ℕ × Bool) → Type 0
Allowed cfg j none = Unit {0}
Allowed cfg j (some (refs, true)) = reservable cfg j ≡ true
Allowed cfg j (some (refs, false)) = servable cfg j ≡ true

asks-servable :
    (cfg : Config) (l : ListenerInfo) (j : MirrorKey) → asks cfg l j ≡ true → servable cfg j ≡ true
unfolding asks mirrorable servable
asks-servable cfg l j h = ground (arith, key_beq_iff (key_of l) j)

demand-servable :
    (cfg : Config) (ls : List ListenerInfo) (j : MirrorKey)
    → eqb (demand cfg ls j) 0 ≡ false
    → servable cfg j ≡ true
unfolding demand
demand-servable cfg [] j h = ground arith
demand-servable cfg (l ∷ ls) j h = elim (Bool-cases (asks cfg l j)) [
  | inl q ↦ asks-servable cfg l j q
  | inr q ↦ demand-servable cfg ls j (ground arith)
]

module _ (cfg : Config) (j : MirrorKey) where
  reconciled-Allowed :
      (ls : List ListenerInfo) (opens : Bool) (v : Option (ℕ × Bool))
      → Allowed cfg j v
      → Allowed cfg j (reconciled (demand cfg ls j) opens v)
  reconciled-Allowed ls opens none h = ground (arith, demand-servable cfg ls j)
  reconciled-Allowed ls opens (some (refs, true)) h = ground (arith, demand-servable cfg ls j)
  reconciled-Allowed ls opens (some (refs, false)) h = ground (arith, demand-servable cfg ls j)

  added-Allowed :
      (opens : Bool) (v : Option (ℕ × Bool)) → servable cfg j ≡ true → Allowed cfg j (added opens v)
  added-Allowed true none h = h
  added-Allowed false none h = tt
  added-Allowed opens (some (refs, pending)) h = h

  dropped-Allowed : (v : Option (ℕ × Bool)) → Allowed cfg j v → Allowed cfg j (dropped v)
  dropped-Allowed none h = tt
  dropped-Allowed (some (refs, true)) h = h
  dropped-Allowed (some (refs, false)) h = ground arith

module _ (cfg : Config) (j : MirrorKey) (c : Client) (same : c.config ≡ cfg)
    (h : Allowed cfg j (view_at j c)) where
  add-Allowed : (m : Mac) (l : ListenerInfo) → Allowed cfg j (view_at j (add m l c))
  add-Allowed m l = elim (Bool-cases (asks cfg l j)) [
    | inl w ↦
        rw (add-view j m l c, same, w)
          (added-Allowed cfg j (can_open m j) (view_at j c) (asks-servable cfg l j w))
    | inr w ↦ rw (add-view j m l c, same, w) h
  ]

  del-Allowed : (l : ListenerInfo) → Allowed cfg j (view_at j (del l c))
  del-Allowed l = elim (Bool-cases (mirrorable c.config l && key_of l == j)) [
    | inl w ↦ rw (del-view j l c, w) (dropped-Allowed cfg j (view_at j c) h)
    | inr w ↦ rw (del-view j l c, w) h
  ]

  event-Allowed : (m : Mac) (ev : Event) → Allowed cfg j (view_at j (handle_event m ev c))
  event-Allowed m ev =
      event_cases (λ _ c'. Allowed cfg j (view_at j c')) m ev [] c
        (rw (reconcile-view j m ev.listeners c, same)
          (reconciled-Allowed cfg j ev.listeners (can_open m j) (view_at j c) h))
        (add-Allowed m (event_listener ev)) (del-Allowed (event_listener ev)) h

  reserve-Allowed : (m : Mac) (r : ReserveReq) → Allowed cfg j (view_at j (handle_reserve m r c).0)
  unfolding reserves reservable
  reserve-Allowed m r = elim (Bool-cases (reserves m r c && tcp_key r.port == j)) [
    | inl w ↦ rw (handle_reserve-view j m r c, w) (ground (arith, key_beq_iff (tcp_key r.port) j))
    | inr w ↦ rw (handle_reserve-view j m r c, w) h
  ]

  release-Allowed :
      (key : MirrorKey) (sock : ℕ) → Allowed cfg j (view_at j (release_if_pending key sock c))
  release-Allowed key sock = ground (arith, h, release-view j key sock c, key_beq_iff key j)

  step-Allowed : (s : Step) → Allowed cfg j (view_at j (step s c))
  unfolding step
  step-Allowed (event m ev) = event-Allowed m ev
  step-Allowed session_end = rw (close_all-view j c) tt
  step-Allowed (reserve m r) = reserve-Allowed m r
  step-Allowed (ttl_fires key sock) = release-Allowed key sock

run-Allowed :
    (cfg : Config) (j : MirrorKey) (ss : List Step) (c : Client)
    → c.config ≡ cfg
    → Allowed cfg j (view_at j c)
    → Allowed cfg j (view_at j (run ss c))
unfolding run
run-Allowed cfg j [] c same h = h
run-Allowed cfg j (s ∷ ss) c same h =
    run-Allowed cfg j ss (step s c) (step-config s c ∙ same) (step-Allowed cfg j c same h s)

-- Whatever happens, a mirror that the client holds is one it may hold: never on port 0 or a port of
-- the skip-list; a pending reservation is TCP; any other is on neither of the agent's own ports, is
-- TCP or UDP, and if UDP is outside the guest's ephemeral range.
pub run-new_client-Allowed :
    (cfg : Config) (ring : Option Ring) (ss : List Step) (j : MirrorKey)
    → Allowed cfg j (view_at j (run ss (new_client cfg ring)))
run-new_client-Allowed cfg ring ss j =
    run-Allowed cfg j ss (new_client cfg ring) (unfold new_client in refl)
      (unfold new_client lookup in tt)
