-- ===== src/Hub/Follows.antt =====
-- tracker.go: what the events of a subscriber's channel make of any earlier belief.
use mathlib.Core.List.{Permᴰ, append_assoc}
use mathlib.Core.List.Permᴰ.{cons}
use mathlib.Core.Path.{subst}
use drawbridge.Base.{
  ℕ, ◌≡◌, ◌≤◌, ◌+◌, refl, sym, ap, ◌∙◌, Bool, true, false, not, ◌&&◌, ◌||◌, List, [], ◌∷◌, ◌++◌,
  length, arith, Bool-cases, Option-cases, inl, inr, if◌then◌else◌, if-both, ltb, length-append,
}
use drawbridge.Base.Eq.{◌==◌, contains, string_eq, nat_eq}
use drawbridge.Base.Sets.{put, remove}
use drawbridge.Mirror.Types.{ListenerInfo, Event}
use drawbridge.Mirror.Session.{event_listener}
use drawbridge.Mirror.Guest.{guest_event, remove_one}
use drawbridge.Hub.{
  TrackerHub, Subscriber, new_hub, snapshot_event, listener_event, subscribe, unsubscribed, cancel,
  event_worthy, publish, apply, received, receives, buffer_size, listener_eq,
}
use drawbridge.Hub.Steps.{
  Formats, HubStep, subscribes, cancels, receive, seeds, tracks, tracked, tracked_event,
  listener_from_event, event_del, hub_step, hub_run,
}
use drawbridge.Hub.Order.{remove-remove_one, remove_one-Permᴰ, contains-Permᴰ}

-- The set that a client holds after the events, from what it held before.
unfoldable pub replay : List Event → List ListenerInfo → List ListenerInfo
replay [] guest = guest
replay (ev ∷ evs) guest = replay evs (guest_event ev guest)

-- A listener that an event takes away is there before it.
unfoldable pub fits : Event → List ListenerInfo → Bool
fits ev guest = not (ev.op == "del") || contains (event_listener ev) guest

unfoldable pub all_fit : List Event → List ListenerInfo → Bool
all_fit [] guest = true
all_fit (ev ∷ evs) guest = fits ev guest && all_fit evs (guest_event ev guest)

-- Whatever the reader believed before the snapshot.
abbrev pub Follows : List ListenerInfo → Subscriber → Type 0
Follows set s =
    ((guest : List ListenerInfo) → Permᴰ (replay (s.taken ++ s.buffer) guest) set)
    × (length s.buffer ≤ buffer_size)
    × ((guest : List ListenerInfo) → all_fit (s.taken ++ s.buffer) guest ≡ true)

unfoldable pub AllFollow : List ListenerInfo → List Subscriber → Type 0
AllFollow set [] = Unit {0}
AllFollow set (s ∷ subs) = Follows set s × AllFollow set subs

abbrev pub IsOrder : (List ListenerInfo → List ListenerInfo) → Type 0
IsOrder order = (xs : List ListenerInfo) → Permᴰ (order xs) xs

-- Each `range` gives every key once, in some order.
unfoldable pub Ordered : List HubStep → Type 0
Ordered [] = Unit {0}
Ordered (subscribes id order ∷ ss) = IsOrder order × Ordered ss
Ordered (cancels id ∷ ss) = Ordered ss
Ordered (receive id ∷ ss) = Ordered ss
Ordered (seeds l ∷ ss) = Ordered ss
Ordered (tracks raw ∷ ss) = Ordered ss

replay-append :
    (xs ys : List Event) (guest : List ListenerInfo)
    → replay (xs ++ ys) guest ≡ replay ys (replay xs guest)
unfolding replay
replay-append [] ys guest = refl
replay-append (x ∷ xs) ys guest = replay-append xs ys (guest_event x guest)

all_fit-append :
    (xs : List Event) (ev : Event) (guest : List ListenerInfo)
    → all_fit (xs ++ ev ∷ []) guest ≡ (all_fit xs guest && fits ev (replay xs guest))
unfolding all_fit replay
all_fit-append [] ev guest = ground arith
all_fit-append (x ∷ xs) ev guest = ground (arith, all_fit-append xs ev (guest_event x guest))

append-snoc : (xs ys : List Event) (ev : Event) → (xs ++ ev ∷ []) ++ ys ≡ xs ++ ev ∷ ys
append-snoc [] ys ev = refl
append-snoc (x ∷ xs) ys ev = ap (◌∷◌ x) (append-snoc xs ys ev)

received-Follows :
    (set : List ListenerInfo) (s : Subscriber) → Follows set s → Follows set (received s)
unfolding received
received-Follows set s h = go s.taken s.buffer h.0 h.1 h.2
  where
    go :
        (ts bs : List Event)
        → ((guest : List ListenerInfo) → Permᴰ (replay (ts ++ bs) guest) set)
        → length bs ≤ buffer_size
        → ((guest : List ListenerInfo) → all_fit (ts ++ bs) guest ≡ true)
        → Follows set (received (record { id = s.id; buffer = bs; taken = ts }))
    go ts [] f b t = (f, b, t)
    go ts (e ∷ es) f b t = (
      λ guest. subst (λ evs. Permᴰ (replay evs guest) set) (sym (append-snoc ts es e)) (f guest),
      omega (arith, b),
      λ guest. subst (λ evs. all_fit evs guest ≡ true) (sym (append-snoc ts es e)) (t guest),
    )

receives-AllFollow :
    (set : List ListenerInfo) (id : ℕ) (subs : List Subscriber)
    → AllFollow set subs
    → AllFollow set (receives id subs)
unfolding receives AllFollow
receives-AllFollow set id [] h = tt
receives-AllFollow set id (s ∷ subs) (f, h) = (
  if-both (Follows set) (s.id == id) _ _ (received-Follows set s f) f,
  receives-AllFollow set id subs h,
)

unsubscribed-AllFollow :
    (set : List ListenerInfo) (id : ℕ) (subs : List Subscriber)
    → AllFollow set subs
    → AllFollow set (unsubscribed id subs)
unfolding unsubscribed AllFollow
unsubscribed-AllFollow set id [] h = tt
unsubscribed-AllFollow set id (s ∷ subs) (f, h) =
    let others = unsubscribed-AllFollow set id subs h in
    if-both (AllFollow set) (s.id == id) _ _ others (f, others)

module _ (set set' : List ListenerInfo) (ev : Event)
    (moves : (guest : List ListenerInfo) → Permᴰ guest set → Permᴰ (guest_event ev guest) set')
    (fit : (guest : List ListenerInfo) → Permᴰ guest set → fits ev guest ≡ true) where
  sent-Follows :
      (s : Subscriber)
      → length s.buffer + 1 ≤ buffer_size
      → Follows set s
      → Follows set' (record s { buffer = s.buffer ++ (ev ∷ []) })
  unfolding replay
  sent-Follows s le (f, b, t) = (
    λ guest.
        subst (λ evs. Permᴰ (replay evs guest) set') (append_assoc s.taken s.buffer (ev ∷ []))
          (subst (λ g. Permᴰ g set') (sym (replay-append (s.taken ++ s.buffer) (ev ∷ []) guest))
            (moves _ (f guest))),
    omega (arith, length-append s.buffer (ev ∷ []), le),
    λ guest.
        subst (λ evs. all_fit evs guest ≡ true) (append_assoc s.taken s.buffer (ev ∷ []))
          (ground (
            arith,
            all_fit-append (s.taken ++ s.buffer) ev guest,
            t guest,
            fit (replay (s.taken ++ s.buffer) guest) (f guest),
          )),
  )

  publish-AllFollow :
      (subs : List Subscriber) → AllFollow set subs → AllFollow set' (publish ev subs)
  unfolding publish AllFollow
  publish-AllFollow [] h = tt
  publish-AllFollow (s ∷ subs) (f, h) = elim (Bool-cases (ltb (length s.buffer) buffer_size)) [
    | inl q ↦ rw q (sent-Follows s (ground (arith, q)) f, publish-AllFollow subs h)
    | inr q ↦ rw q (publish-AllFollow subs h)
  ]

-- What a change of the set by one event keeps of the subscribers.
abbrev Sound : TrackerHub → Type 0
Sound h = AllFollow h.set h.subs

add_moves :
    (l : ListenerInfo) (set guest : List ListenerInfo)
    → contains l set ≡ false
    → Permᴰ guest set
    → Permᴰ (guest_event (listener_event "add" l) guest) (put l set)
unfolding guest_event listener_event put
add_moves l set guest q p = rw q (cons refl p)

del_moves :
    (l : ListenerInfo) (set guest : List ListenerInfo)
    → Permᴰ guest set
    → Permᴰ (guest_event (listener_event "del" l) guest) (remove l set)
unfolding guest_event listener_event
del_moves l set guest p =
    subst (Permᴰ (remove_one l guest)) (sym (remove-remove_one l set)) (remove_one-Permᴰ l p)

del_fits :
    (l : ListenerInfo) (set guest : List ListenerInfo)
    → contains l set ≡ true
    → Permᴰ guest set
    → fits (listener_event "del" l) guest ≡ true
unfolding fits listener_event
del_fits l set guest q p = contains-Permᴰ l p ∙ q

add_fits :
    (l : ListenerInfo) (guest : List ListenerInfo) → fits (listener_event "add" l) guest ≡ true
unfolding fits listener_event
add_fits l guest = refl

apply-add : (l : ListenerInfo) (h : TrackerHub) → Sound h → Sound (apply "add" l h)
unfolding apply
apply-add l h sound =
    if-both Sound (not (event_worthy l)) _ _ sound (elim (Bool-cases (contains l h.set)) [
      | inl q ↦ rw q sound
      | inr q ↦ rw q (
          publish-AllFollow h.set (put l h.set) (listener_event "add" l)
            (λ guest. add_moves l h.set guest q) (λ guest p. add_fits l guest) h.subs sound)
    ])

apply-del : (l : ListenerInfo) (h : TrackerHub) → Sound h → Sound (apply "del" l h)
unfolding apply
apply-del l h sound =
    if-both Sound (not (event_worthy l)) _ _ sound (elim (Bool-cases (contains l h.set)) [
      | inl q ↦ rw q (
          publish-AllFollow h.set (remove l h.set) (listener_event "del" l)
            (λ guest. del_moves l h.set guest) (λ guest. del_fits l h.set guest q) h.subs sound)
      | inr q ↦ rw q sound
    ])

subscribe-Sound :
    (id : ℕ) (order : List ListenerInfo → List ListenerInfo) (h : TrackerHub)
    → IsOrder order
    → Sound h
    → Sound (subscribe id order h)
unfolding subscribe AllFollow replay guest_event snapshot_event all_fit fits
subscribe-Sound id order h orders sound =
    ((λ guest. orders h.set, omega arith, λ guest. refl), sound)

module _ (formats : Formats) where
  tracked_event-Sound :
      (op : Bool) (l : ListenerInfo) (h : TrackerHub)
      → Sound h
      → Sound (apply (if op then "del" else "add") l h)
  tracked_event-Sound true l h sound = apply-del l h sound
  tracked_event-Sound false l h sound = apply-add l h sound

  tracked-Sound : (raw : List ℕ) (h : TrackerHub) → Sound h → Sound (tracked formats raw h)
  unfolding tracked tracked_event
  tracked-Sound raw h sound = elim (Option-cases (formats.read raw)) [
    | inl q ↦ rw (tracked, q) sound
    | inr (e, q) ↦
        rw (tracked, q)
          (tracked_event-Sound (e.op == event_del) (listener_from_event formats e) h sound)
  ]

  -- Each step keeps it.
  hub_run-Sound :
      (ss : List HubStep) (h : TrackerHub) → Ordered ss → Sound h → Sound (hub_run formats ss h)
  unfolding hub_run hub_step Ordered cancel
  hub_run-Sound [] h o sound = sound
  hub_run-Sound (subscribes id order ∷ ss) h (p, o) sound =
      hub_run-Sound ss (subscribe id order h) o (subscribe-Sound id order h p sound)
  hub_run-Sound (cancels id ∷ ss) h o sound =
      hub_run-Sound ss (cancel id h) o (unsubscribed-AllFollow h.set id h.subs sound)
  hub_run-Sound (receive id ∷ ss) h o sound =
      hub_run-Sound ss (record h { subs = receives id h.subs }) o
        (receives-AllFollow h.set id h.subs sound)
  hub_run-Sound (seeds l ∷ ss) h o sound =
      hub_run-Sound ss (apply "add" l h) o (apply-add l h sound)
  hub_run-Sound (tracks raw ∷ ss) h o sound =
      hub_run-Sound ss (tracked formats raw h) o (tracked-Sound raw h sound)

  -- Whatever listeners come and go, in whatever order streams subscribe, receive and end, and in
  -- whatever order a snapshot lists the set: a subscriber that the hub still has was never
  -- overflowed, and what its reader has received, followed by what waits in its channel, leads from
  -- any earlier belief to exactly the hub's set, up to the order, and takes away no listener that is
  -- not there.
  pub hub_run-AllFollow :
      (ss : List HubStep)
      → Ordered ss
      → AllFollow (hub_run formats ss new_hub).set (hub_run formats ss new_hub).subs
  unfolding AllFollow
  hub_run-AllFollow ss o = hub_run-Sound ss new_hub o tt
