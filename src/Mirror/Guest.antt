-- ===== src/Mirror/Guest.antt =====
-- The guest's listener set as the events of the 'E' stream tell it, beside the client of mirror.go.
use drawbridge.Base.{
  ◌+◌, ◌≤◌, ◌≡◌, ◌↔◌, Bool, true, ◌&&◌, List, [], ◌∷◌, arith, if◌then◌else◌, eq_iff, Bool-cases,
  inl, inr,
}
use drawbridge.Base.Eq.{◌==◌, string_eq, nat_eq}
use drawbridge.Mirror.Types.{
  ListenerInfo, MirrorKey, key_eq, key_beq_iff, Config, Client, Event, Mac,
}
use drawbridge.Mirror.Policy.{mirrorable}
use drawbridge.Mirror.Session.{key_of, event_listener, handle_event, reconcile, add, del}
use drawbridge.Mirror.Steps.{Step, event, session_end, reserve, ttl_fires}
use drawbridge.Mirror.Reconcile.{asks, demand}

abbrev pub listener_beq : ListenerInfo → ListenerInfo → Bool
listener_beq a b = a.proto == b.proto && a.port == b.port && a.addr == b.addr

pub listener_beq_iff : (a b : ListenerInfo) → (listener_beq a b ≡ true) ↔ (a ≡ b)
listener_beq_iff a b = ground (arith, eq_iff a.proto b.proto, eq_iff a.addr b.addr)

-- One listener less, if it is there.
unfoldable pub remove_one : ListenerInfo → List ListenerInfo → List ListenerInfo
remove_one l [] = []
remove_one l (x ∷ xs) = if listener_beq x l then xs else x ∷ remove_one l xs

unfoldable pub guest_event : Event → List ListenerInfo → List ListenerInfo
guest_event ev guest =
    if ev.op == "snapshot"
    then ev.listeners
    else if ev.op == "add"
    then event_listener ev ∷ guest
    else if ev.op == "del"
    then remove_one (event_listener ev) guest
    else guest

unfoldable pub guest_step : Step → List ListenerInfo → List ListenerInfo
guest_step (event m ev) guest = guest_event ev guest
guest_step session_end guest = guest
guest_step (reserve m r) guest = guest
guest_step (ttl_fires key sock) guest = guest

unfoldable pub guest_run : List Step → List ListenerInfo → List ListenerInfo
guest_run [] guest = guest
guest_run (s ∷ ss) guest = guest_run ss (guest_step s guest)

abbrev pub drops : Config → ListenerInfo → MirrorKey → Bool
drops cfg l j = mirrorable cfg l && key_of l == j

-- A listener that goes takes one from the demand at its own key at most.
pub demand-remove_one :
    (cfg : Config) (l : ListenerInfo) (ls : List ListenerInfo) (j : MirrorKey)
    → demand cfg ls j ≤ demand cfg (remove_one l ls) j + (if drops cfg l j then 1 else 0)
unfolding demand remove_one asks
demand-remove_one cfg l [] j = ground arith
demand-remove_one cfg l (x ∷ xs) j = ground (
  arith,
  demand-remove_one cfg l xs j,
  listener_beq_iff x l,
  key_beq_iff (key_of x) j,
  key_beq_iff (key_of l) j,
)

-- What holds of the guest's set and the client after an event, from its four cases.
pub event_cases {ℓ} :
    (P : List ListenerInfo → Client → Type ℓ) (m : Mac) (ev : Event) (guest : List ListenerInfo)
    (c : Client)
    → P ev.listeners (reconcile m ev.listeners c)
    → P (event_listener ev ∷ guest) (add m (event_listener ev) c)
    → P (remove_one (event_listener ev) guest) (del (event_listener ev) c)
    → P guest c
    → P (guest_event ev guest) (handle_event m ev c)
unfolding guest_event handle_event
event_cases P m ev guest c snapshot adds dels other = elim (Bool-cases (ev.op == "snapshot")) [
  | inl q ↦ rw q snapshot
  | inr q ↦ elim (Bool-cases (ev.op == "add")) [
    | inl a ↦ rw (q, a) adds
    | inr a ↦ elim (Bool-cases (ev.op == "del")) [
      | inl d ↦ rw (q, a, d) dels
      | inr d ↦ rw (q, a, d) other
    ]
  ]
]
