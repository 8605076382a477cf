-- ===== src/Hub/Steps.antt =====
-- internal/agent/tracker.go and agent.go: who changes the hub, and when. The scan of /proc and the
-- loop of RunTracker apply changes, transport.go's serveEvents subscribes, receives and cancels.
use drawbridge.Base.{ℕ, String, ◌≡◌, refl, Option, none, some, List, [], ◌∷◌, if◌then◌else◌}
use drawbridge.Base.Eq.{◌==◌, nat_eq}
use drawbridge.Mirror.Types.{ListenerInfo}
use drawbridge.Hub.{TrackerHub, subscribe, cancel, apply, receives}

abbrev pub proto_udp : ℕ
proto_udp = 17

abbrev pub event_del : ℕ
event_del = 2

-- What the kernel's program writes to the ring buffer.
pub record ListenerEvent : Type 0 where
  pub op : ℕ
  pub proto : ℕ
  pub port : ℕ
  pub addr : List ℕ

-- What ringbuf.Reader's Read returns.
pub data ReadResult : Type 0 where
  closed failed : ReadResult
  sample : List ℕ → ReadResult

-- binary.Read of a raw sample, and the text of netip.AddrFrom16(b).Unmap().
pub record Formats : Type 0 where
  pub read : List ℕ → Option ListenerEvent
  pub text : List ℕ → String

-- Each takes h.mu for its whole step, or is one receive.
pub data HubStep : Type 0 where
  subscribes : ℕ → (List ListenerInfo → List ListenerInfo) → HubStep
  cancels : ℕ → HubStep
  receive : ℕ → HubStep
  seeds : ListenerInfo → HubStep
  tracks : List ℕ → HubStep

module _ (formats : Formats) where
  unfoldable pub listener_from_event : ListenerEvent → ListenerInfo
  listener_from_event e = record {
    proto = if e.proto == proto_udp then "udp" else "tcp";
    port = e.port;
    addr = formats.text e.addr;
  }

  unfoldable pub tracked_event : ListenerEvent → TrackerHub → TrackerHub
  tracked_event e h = apply (if e.op == event_del then "del" else "add") (listener_from_event e) h

  -- One round of the loop whose read gave a record.
  unfoldable pub tracked : List ℕ → TrackerHub → TrackerHub
  tracked raw h = elim (formats.read raw) [ none ↦ h | some e ↦ tracked_event e h ]

  unfoldable pub run_tracker : List ReadResult → TrackerHub → TrackerHub
  run_tracker [] h = h
  run_tracker (closed ∷ reads) h = h
  run_tracker (failed ∷ reads) h = run_tracker reads h
  run_tracker (sample raw ∷ reads) h = run_tracker reads (tracked raw h)

  unfoldable pub hub_step : HubStep → TrackerHub → TrackerHub
  hub_step (subscribes id order) h = subscribe id order h
  hub_step (cancels id) h = cancel id h
  hub_step (receive id) h = record h { subs = receives id h.subs }
  hub_step (seeds l) h = apply "add" l h
  hub_step (tracks raw) h = tracked raw h

  unfoldable pub hub_run : List HubStep → TrackerHub → TrackerHub
  hub_run [] h = h
  hub_run (s ∷ ss) h = hub_run ss (hub_step s h)

  -- The samples that the loop reads before the reader is closed.
  abbrev samples : List ReadResult → List HubStep
  samples [] = []
  samples (closed ∷ reads) = []
  samples (failed ∷ reads) = samples reads
  samples (sample raw ∷ reads) = tracks raw ∷ samples reads

  -- The loop is those of its rounds that read a record.
  pub run_tracker-hub_run :
      (reads : List ReadResult) (h : TrackerHub) → run_tracker reads h ≡ hub_run (samples reads) h
  unfolding run_tracker hub_run hub_step
  run_tracker-hub_run [] h = refl
  run_tracker-hub_run (closed ∷ reads) h = refl
  run_tracker-hub_run (failed ∷ reads) h = run_tracker-hub_run reads h
  run_tracker-hub_run (sample raw ∷ reads) h = run_tracker-hub_run reads (tracked raw h)
