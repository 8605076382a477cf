-- ===== src/MacSync/Session.antt =====
-- sync.go: an 'M' session once both proofs are exchanged, tick by tick.
use drawbridge.Base.{
  ℕ, Bool, true, false, Option, none, some, List, [], ◌∷◌, ◌++◌, eqb, if◌then◌else◌, length,
}
use drawbridge.Ring.{record_line}
use drawbridge.MacSync.Listeners.{Listener}
use drawbridge.MacSync.Syncer.{
  Syncer, SyncEvent, op_snapshot, current_set, set_advertised, tick_events, idle_ping,
}
use Prim.Native.String.{String}

-- `sent` is what the encoder wrote, in order; `ended` that session has returned.
pub record Session : Type 0 where
  pub syncer : Syncer
  pub last : List Listener
  pub sent : List SyncEvent
  pub last_sent : ℕ
  pub ended : Bool

abbrev pub id_advertised_none : String
id_advertised_none = "advertised-none"

abbrev pub empty_session_line : String
empty_session_line =
    "session established advertising no Mac listeners — the enumeration returned zero LISTEN sockets, which a Mac never legitimately has; a terminal-launched daemon on macOS 27.0b4 gets a per-responsible-app-filtered pcblist (local-network-permission.md finding 5) — `sudo drawbridge install -vm <vm>` runs exempt"

unfoldable pub note_empty_session : ℕ → Syncer → Syncer
note_empty_session now s = record s {
  refusals = record_line s.refusals now id_advertised_none empty_session_line;
}

unfoldable pub opened : ℕ → Syncer → Option (List Listener) → Option Session
opened now s none = none
opened now s (some set) =
    let up = record (set_advertised now set s) { session_up = true } in
    some (record {
      syncer = if eqb (length set) 0 then note_empty_session now up else up;
      last = set;
      sent = op_snapshot set ∷ [];
      last_sent = now;
      ended = false;
    })

-- The session's start on the answer of its first poll; `none` if that fails.
unfoldable pub start : ℕ → Option (List Listener) → Syncer → Option Session
unfolding opened
start now polled s = opened now s (current_set s polled)

-- A return: the deferred store of sessionUp.
unfoldable pub end_session : Session → Session
end_session ss = record ss { ended = true; syncer = record ss.syncer { session_up = false } }

unfoldable pub told : ℕ → Session → Option (List Listener) → Session
unfolding end_session
told now ss none = end_session ss
told now ss (some cur) =
    let events = tick_events ss.last cur in
    let at = if eqb (length events) 0 then ss.last_sent else now in
    let pings = idle_ping now at in
    record ss {
      syncer = set_advertised now cur ss.syncer;
      last = cur;
      sent = ss.sent ++ (events ++ pings);
      last_sent = if eqb (length pings) 0 then at else now;
    }

-- What a tick reads: the clock, the ports that Exclude keeps back at that moment, and the poll.
pub record TickRead : Type 0 where
  pub now : ℕ
  pub excluded : Listener → Bool
  pub polled : Option (List Listener)

abbrev pub excluding : (Listener → Bool) → Syncer → Syncer
excluding excluded s = record s { exclude = excluded }

unfoldable pub tick : TickRead → Session → Session
unfolding told
tick r ss =
    let s = excluding r.excluded ss.syncer in
    if ss.ended then ss else told r.now (record ss { syncer = s }) (current_set s r.polled)

unfoldable pub ticks : List TickRead → Session → Session
ticks [] ss = ss
ticks (r ∷ rs) ss = ticks rs (tick r ss)
