-- ===== src/Hub.antt =====
-- internal/agent/tracker.go: the guest's listener set and its subscribers, one per 'E' stream.
-- A listener's address stands as the text that the events carry.
use drawbridge.Base.{
  ℕ, String, Bool, not, ◌&&◌, List, [], ◌∷◌, ◌++◌, length, if◌then◌else◌, ltb, leb,
}
use drawbridge.Base.Eq.{Comparable, ◌==◌, contains, string_eq, nat_eq}
use drawbridge.Base.Sets.{put, remove}
use drawbridge.Mirror.Types.{ListenerInfo, Event}
use drawbridge.Mirror.Guest.{listener_beq, listener_beq_iff}
use drawbridge.Mirror.Policy.{linux_ephemeral_lo, linux_ephemeral_hi}
pub mod Steps
pub mod Order
pub mod Follows
pub mod Mirrored
pub mod EndToEnd
pub mod Runs

instance abbrev pub listener_eq : Comparable ListenerInfo
listener_eq = record { equal = listener_beq; equal_iff = listener_beq_iff }

abbrev pub buffer_size : ℕ
buffer_size = 256

-- A channel of `Subscribe` under the name `id`: the events in it, and those that its reader has
-- taken out, which no code reads.
pub record Subscriber : Type 0 where
  pub id : ℕ
  pub buffer : List Event
  pub taken : List Event

pub record TrackerHub : Type 0 where
  pub set : List ListenerInfo
  pub subs : List Subscriber

abbrev pub new_hub : TrackerHub
new_hub = record { set = []; subs = [] }

unfoldable pub snapshot_event : List ListenerInfo → Event
snapshot_event snap = record { op = "snapshot"; proto = ""; port = 0; addr = ""; listeners = snap }

unfoldable pub listener_event : String → ListenerInfo → Event
listener_event op l = record {
  op = op;
  proto = l.proto;
  port = l.port;
  addr = l.addr;
  listeners = [];
}

-- `order` is the order in which `range h.set` gives the keys.
unfoldable pub subscribe : ℕ → (List ListenerInfo → List ListenerInfo) → TrackerHub → TrackerHub
subscribe id order h = record h {
  subs = (record { id = id; buffer = snapshot_event (order h.set) ∷ []; taken = [] }) ∷ h.subs;
}

-- delete(h.subs, ch)
unfoldable pub unsubscribed : ℕ → List Subscriber → List Subscriber
unsubscribed id [] = []
unsubscribed id (s ∷ subs) =
    let others = unsubscribed id subs in if s.id == id then others else s ∷ others

-- What Subscribe returns beside the channel.
unfoldable pub cancel : ℕ → TrackerHub → TrackerHub
cancel id h = record h { subs = unsubscribed id h.subs }

unfoldable pub has : ListenerInfo → TrackerHub → Bool
has l h = contains l h.set

unfoldable pub event_worthy : ListenerInfo → Bool
event_worthy l =
    not (l.proto == "udp" && leb linux_ephemeral_lo l.port && leb l.port linux_ephemeral_hi)

-- The select for each channel: a full one is closed and dropped.
unfoldable pub publish : Event → List Subscriber → List Subscriber
publish ev [] = []
publish ev (s ∷ subs) =
    let others = publish ev subs in
    if ltb (length s.buffer) buffer_size
    then record s { buffer = s.buffer ++ (ev ∷ []) } ∷ others
    else others

unfoldable pub apply : String → ListenerInfo → TrackerHub → TrackerHub
apply op l h =
    if not (event_worthy l)
    then h
    else if op == "add"
    then if contains l h.set
      then h
      else record { set = put l h.set; subs = publish (listener_event op l) h.subs }
    else if not (contains l h.set)
    then h
    else record { set = remove l h.set; subs = publish (listener_event op l) h.subs }

-- The next event out of a channel.
unfoldable pub received : Subscriber → Subscriber
received s = elim s.buffer [
  | [] ↦ s
  | ev ∷ evs ↦ record s { buffer = evs; taken = s.taken ++ (ev ∷ []) }
]

-- A subscriber's goroutine receives from its channel.
unfoldable pub receives : ℕ → List Subscriber → List Subscriber
receives id [] = []
receives id (s ∷ subs) = (if s.id == id then received s else s) ∷ receives id subs
