-- ===== src/MacSync/Replay.antt =====
-- What a reader of the 'M' stream knows of the Mac's set.
use mathlib.Core.Path.{subst}
use mathlib.Core.Option.{some-injective}
use drawbridge.Base.{
  ℕ, ◌≡◌, refl, Bool, true, false, sym, ap, ◌∙◌, not, ◌&&◌, ◌||◌, Option, none, some, List, [], ◌∷◌,
  ◌++◌, map, eqb, length, if◌then◌else◌, keep, arith,
}
use drawbridge.Base.Eq.{◌==◌, contains}
use drawbridge.MacSync.Listeners.{Listener, listener_eq}
use drawbridge.Base.Sets.{put, contains-put, contains-keep}
use drawbridge.MacSync.Syncer.{
  Syncer, SyncEvent, op_snapshot, op_add, op_del, op_ping, adv_keys, set_advertised, note_emptied,
  tick_events, idle_ping, current_set, put_udp, put_polled,
}
use drawbridge.MacSync.Session.{
  Session, TickRead, excluding, opened, told, start, tick, ticks, end_session, note_empty_session,
}

-- A reader that keeps the set: a snapshot replaces it.
abbrev pub heard : SyncEvent → List Listener → List Listener
heard (op_snapshot ls) set = ls
heard (op_add l) set = put l set
heard (op_del l) set = keep (λ x. not (l == x)) set
heard op_ping set = set

abbrev pub replay : List SyncEvent → List Listener → List Listener
replay [] set = set
replay (e ∷ es) set = replay es (heard e set)

replay-append :
    (es fs : List SyncEvent) (set : List Listener)
    → replay (es ++ fs) set ≡ replay fs (replay es set)
replay-append [] fs set = refl
replay-append (e ∷ es) fs set = replay-append es fs (heard e set)

contains-dels :
    (x : Listener) (ds set : List Listener)
    → contains x (replay (map op_del ds) set) ≡ (contains x set && not (contains x ds))
unfolding contains
contains-dels x [] set = ground arith
contains-dels x (d ∷ ds) set = ground (
  arith,
  contains-dels x ds (keep (λ y. not (d == y)) set),
  contains-keep (λ y. not (d == y)) x set,
)

contains-adds :
    (x : Listener) (as' set : List Listener)
    → contains x (replay (map op_add as') set) ≡ (contains x set || contains x as')
unfolding contains
contains-adds x [] set = ground arith
contains-adds x (a ∷ as') set =
    ground (arith, contains-adds x as' (put a set), contains-put a x set)

contains-tick_events :
    (x : Listener) (last cur set : List Listener)
    → contains x set ≡ contains x last
    → contains x (replay (tick_events last cur) set) ≡ contains x cur
unfolding tick_events
contains-tick_events x last cur set h =
    let ds = keep (λ l. not (contains l cur)) last in
    let as' = keep (λ l. not (contains l last)) cur in
    rw (replay-append (map op_del ds) (map op_add as') set) (
      ground (
        arith,
        contains-adds x as' (replay (map op_del ds) set),
        contains-dels x ds set,
        contains-keep (λ l. not (contains l cur)) x last,
        contains-keep (λ l. not (contains l last)) x cur,
      ))

replay-idle_ping : (now at : ℕ) (set : List Listener) → replay (idle_ping now at) set ≡ set
unfolding idle_ping
replay-idle_ping now at set = ground arith

pub set_advertised-advertised :
    (now : ℕ) (set : List Listener) (s : Syncer)
    → (set_advertised now set s).advertised ≡ some (adv_keys set)
unfolding set_advertised note_emptied
set_advertised-advertised now set s = ground arith

-- The stream's reader has the set last read, and the activations are bounded by it.
abbrev pub InStep : Session → Type 0
InStep ss =
    ((x : Listener) → contains x (replay ss.sent []) ≡ contains x ss.last)
    × (ss.syncer.advertised ≡ some (adv_keys ss.last))

end_session-InStep : (ss : Session) → InStep ss → InStep (end_session ss)
unfolding end_session
end_session-InStep ss h = h

replay-told :
    (cur : List Listener) (ss : Session) (now' at : ℕ)
    → InStep ss
    → (x : Listener)
    → contains x (replay (ss.sent ++ (tick_events ss.last cur ++ idle_ping now' at)) [])
      ≡ contains x cur
replay-told cur ss now' at h x =
    let es = tick_events ss.last cur in
    let ps = idle_ping now' at in
    let r = replay ss.sent [] in
    ap (contains x) (
      replay-append ss.sent (es ++ ps) []
      ∙ replay-append es ps r
      ∙ replay-idle_ping now' at (replay es r))
    ∙ contains-tick_events x ss.last cur r (h.0 x)

told-InStep :
    (now : ℕ) (cur : Option (List Listener)) (ss : Session) → InStep ss → InStep (told now ss cur)
unfolding told end_session
told-InStep now none ss h = h
told-InStep now (some cur) ss h =
    let at = if eqb (length (tick_events ss.last cur)) 0 then ss.last_sent else now in
    (replay-told cur ss now at h, set_advertised-advertised now cur ss.syncer)

-- What the session's last successful read gave: the first failure ends it.
abbrev read_on :
    (List Listener → List Listener) → Option (List Listener) → List Listener → List Listener
read_on more none set = set
read_on more (some cur) set = more cur

unfoldable pub last_read : Syncer → List TickRead → List Listener → List Listener
last_read s [] set = set
last_read s (r ∷ rs) set =
    read_on (last_read s rs) (current_set (excluding r.excluded s) r.polled) set

-- A set depends on the configured services, and on what is excluded at its reading.
current_set-excluding :
    (e : Listener → Bool) (a b : Syncer) (polled : Option (List Listener))
    → a.udp_ports ≡ b.udp_ports
    → current_set (excluding e a) polled ≡ current_set (excluding e b) polled
unfolding current_set
current_set-excluding e a b none h = refl
current_set-excluding e a b (some ls) h = ap (λ us. some (put_udp e us (put_polled e ls []))) h

set_advertised-udp_ports :
    (now : ℕ) (set : List Listener) (s : Syncer)
    → (set_advertised now set s).udp_ports ≡ s.udp_ports
unfolding set_advertised note_emptied
set_advertised-udp_ports now set s = ground arith

ticks-ended : (rs : List TickRead) (ss : Session) → ss.ended ≡ true → ticks rs ss ≡ ss
unfolding ticks tick
ticks-ended [] ss e = refl
ticks-ended (r ∷ rs) ss e = ap (ticks rs) (rw e refl) ∙ ticks-ended rs ss e

-- An open session that is in step with the set that it read last.
record IsOpen (s : Syncer) (set : List Listener) (ss : Session) : Type 0 where
  step : InStep ss
  open_still : ss.ended ≡ false
  read_last : ss.last ≡ set
  services : ss.syncer.udp_ports ≡ s.udp_ports

-- What a reader knows, and the bound of the activations.
abbrev pub Knows : List Listener → Session → Type 0
Knows set ss =
    ((x : Listener) → contains x (replay ss.sent []) ≡ contains x set)
    × (ss.syncer.advertised ≡ some (adv_keys set))

Knows-last : (s : Syncer) (set : List Listener) (ss : Session) → IsOpen s set ss → Knows set ss
Knows-last s set ss h = subst (λ l. Knows l ss) h.read_last h.step

told-Knows :
    (s : Syncer) (set : List Listener) (rs : List TickRead) (now : ℕ) (ss : Session)
    (o : Option (List Listener))
    → IsOpen s set ss
    → ((cur : List Listener)
        → IsOpen s cur (told now ss (some cur))
        → Knows (last_read s rs cur) (ticks rs (told now ss (some cur))))
    → Knows (read_on (last_read s rs) o set) (ticks rs (told now ss o))
unfolding told end_session
told-Knows s set rs now ss none h more =
    subst (Knows set) (sym (ticks-ended rs (end_session ss) refl)) (Knows-last s set ss h)
told-Knows s set rs now ss (some cur) h more = more cur (record {
  step = told-InStep now (some cur) ss h.step;
  open_still = h.open_still;
  read_last = refl;
  services = set_advertised-udp_ports now cur ss.syncer ∙ h.services;
})

ticks-Knows :
    (s : Syncer) (set : List Listener) (rs : List TickRead) (ss : Session)
    → IsOpen s set ss
    → Knows (last_read s rs set) (ticks rs ss)
unfolding ticks tick last_read
ticks-Knows s set [] ss h = Knows-last s set ss h
ticks-Knows s set (r ∷ rs) ss h =
    let now_excluding = record ss { syncer = excluding r.excluded ss.syncer } in
    let read = current_set-excluding r.excluded ss.syncer s r.polled h.services in
    let next = λ (cur : List Listener) (k : IsOpen s cur (told r.now now_excluding (some cur))).
      ticks-Knows s cur rs (told r.now now_excluding (some cur)) k in
    let still : IsOpen s set now_excluding = record {
      step = h.step;
      open_still = h.open_still;
      read_last = h.read_last;
      services = h.services;
    } in
    subst
      (λ b. Knows (last_read s (r ∷ rs) set) (
        ticks rs
          (if b then ss else told r.now now_excluding (current_set now_excluding.syncer r.polled))))
      (sym h.open_still)
      (subst (λ o. Knows (last_read s (r ∷ rs) set) (ticks rs (told r.now now_excluding o)))
        (sym read)
        (told-Knows s set rs r.now now_excluding (current_set (excluding r.excluded s) r.polled)
          still next))

opened-IsOpen :
    (now : ℕ) (set : List Listener) (s : Syncer) (ss : Session)
    → opened now s (some set) ≡ some ss
    → IsOpen s set ss
unfolding opened note_empty_session
opened-IsOpen now set s ss h = subst (IsOpen s set) (some-injective _ _ h) (record {
  step = (λ x. refl, ground (arith, set_advertised-advertised now set s));
  open_still = refl;
  read_last = refl;
  services = ground (arith, set_advertised-udp_ports now set s);
})

-- At every moment of an established session, whatever the polls answer and whatever is excluded at
-- each: a reader that replays the events written so far has exactly the set that the last successful
-- poll gave, normalized and without what was excluded then, and exactly that set bounds the
-- activations. The first poll that fails ends the session.
pub ticks-start-Knows :
    (now : ℕ) (polled : Option (List Listener)) (s : Syncer) (first : List Listener) (ss : Session)
    (rs : List TickRead)
    → current_set s polled ≡ some first
    → start now polled s ≡ some ss
    → Knows (last_read s rs first) (ticks rs ss)
unfolding start
ticks-start-Knows now polled s first ss rs read h =
    ticks-Knows s first rs ss (opened-IsOpen now first s ss (sym (ap (opened now s) read) ∙ h))
