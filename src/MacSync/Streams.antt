-- ===== src/MacSync/Streams.antt =====
-- sync.go: what an activated reverse stream is answered with.
use drawbridge.Base.{ℕ, ◌+◌, ◌*◌, String, Bool, not, Option, none, some, eqb, if◌then◌else◌}
use drawbridge.Base.Text.{itoa, ◌<>◌}
use drawbridge.Ring.{record_line}
use drawbridge.MacSync.Syncer.{Syncer, is_advertised}

-- What becomes of the stream: closed, spliced to 127.0.0.1:port, relayed to sockets on it, or closed
-- since the backend is gone.
pub data Answered : Type 0 where
  closed : Answered
  spliced relayed backend_gone : ℕ → Answered

abbrev pub id_reverse_dial_refused : String
id_reverse_dial_refused = "reverse-dial-refused"

abbrev pub id_activation_reserved : String
id_activation_reserved = "activation-reserved-byte"

abbrev pub refused_dial_line : ℕ → ℕ → String
refused_dial_line proto port =
    "refused reverse dial to 127.0.0.1:"
    <> itoa port
    <> " (proto "
    <> itoa proto
    <> "): not a port this Mac advertised — the guest asked for something the syncer never offered (agent bug or hostile peer); conn closed"

abbrev pub reserved_line : String
reserved_line =
    "dropping reverse-stream conn: nonzero reserved byte in activation header (incompatible agent?)"

-- handleStream; `dials` tells whether dialLocal succeeds.
unfoldable pub handle_stream : (ℕ → Bool) → ℕ → ℕ → ℕ → Syncer → Syncer × Answered
handle_stream dials now proto port s =
    if eqb port 0
    then (s, closed)
    else if not (is_advertised proto port s.advertised)
    then (
      record s {
        refusals =
            record_line s.refusals now id_reverse_dial_refused (refused_dial_line proto port);
      },
      closed,
    )
    else if eqb proto 6
    then (s, if dials port then spliced port else backend_gone port)
    else if eqb proto 17
    then (s, relayed port)
    else (s, closed)

-- The activation header as parkOne reads it: proto, port big-endian, reserved.
pub record Activation : Type 0 where
  pub proto : ℕ
  pub port_hi : ℕ
  pub port_lo : ℕ
  pub reserved : ℕ

-- parkOne from the header on: `none` is a conn that ended while it was parked.
unfoldable pub activate : (ℕ → Bool) → ℕ → Option Activation → Syncer → Syncer × Answered
activate dials now none s = (s, closed)
activate dials now (some h) s =
    if eqb h.reserved 0 then handle_stream dials now h.proto (h.port_hi * 256 + h.port_lo) s else (
      record s { refusals = record_line s.refusals now id_activation_reserved reserved_line },
      closed,
    )
