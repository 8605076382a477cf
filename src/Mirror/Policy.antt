-- ===== src/Mirror/Policy.antt =====
-- mirror.go: which listeners are mirrored, and what holds a port on the Mac.
use drawbridge.Base.{
  ℕ, String, Bool, true, false, not, ◌&&◌, ◌||◌, Option, none, some, eqb, leb, if◌then◌else◌,
}
use drawbridge.Base.Eq.{◌==◌, string_eq, nat_eq}
use drawbridge.Base.Table.{lookup, insert, delete}
use drawbridge.Base.Text.{itoa, ◌<>◌}
use drawbridge.Ring.{record_line}
use drawbridge.Mirror.Types.{ListenerInfo, MirrorKey, key_eq, Observed, Config, Client, Mac}

abbrev pub entry_skipped : String
entry_skipped = "skipped"

abbrev pub entry_bind_failed : String
entry_bind_failed = "bind-failed"

abbrev pub id_mirror_skip : String
id_mirror_skip = "mirror-skip"

abbrev pub linux_ephemeral_lo : ℕ
linux_ephemeral_lo = 32768

abbrev pub linux_ephemeral_hi : ℕ
linux_ephemeral_hi = 60999

abbrev pub default_agent_port : ℕ
default_agent_port = 4777

unfoldable pub effective_agent_port : Config → ℕ
effective_agent_port c = if eqb c.guest_agent_port 0 then default_agent_port else c.guest_agent_port

-- case "0.0.0.0", "::", "127.0.0.1", "::1"
unfoldable pub loopback_reachable : String → Bool
loopback_reachable a = a == "0.0.0.0" || a == "::" || a == "127.0.0.1" || a == "::1"

-- The switch on l.Proto.
unfoldable pub proto_mirrorable : String → ℕ → Bool
proto_mirrorable proto port =
    if proto == "tcp"
    then true
    else if proto == "udp"
    then not (leb linux_ephemeral_lo port && leb port linux_ephemeral_hi)
    else false

unfoldable pub mirrorable : Config → ListenerInfo → Bool
mirrorable c l =
    if eqb l.port 0 || eqb l.port c.agent_port || eqb l.port (effective_agent_port c)
    then false
    else proto_mirrorable l.proto l.port && loopback_reachable l.addr

-- c.Skip[port]: a port that the map lacks reads false.
unfoldable pub skips : Config → ℕ → Bool
skips c port = elim (lookup port c.skip) [ none ↦ false | some b ↦ b ]

same_state : Option Observed → String → Bool
same_state none state = false
same_state (some o) state = o.state == state

unfoldable pub observe : ℕ → MirrorKey → String → Client → Client
unfolding same_state
observe now key state c =
    if same_state (lookup key c.obs) state
    then c
    else record c { obs = insert key (record { state = state; since = now }) c.obs }

unfoldable pub forget : MirrorKey → Client → Client
forget key c = record c { obs = delete key c.obs }

abbrev pub skip_line : String → ℕ → String
skip_line proto port =
    "skipping guest " <> proto <> " :" <> itoa port <> " (skip-list; -skip to override)"

-- `declined` once the skip-list covers the port: observed, and recorded in the ring.
unfoldable pub note_skip : ℕ → MirrorKey → String → Client → Client
note_skip now key line c =
    let c' = observe now key entry_skipped c in
    record c' { refusals = record_line c'.refusals now id_mirror_skip line }

-- declined: whether the skip-list covers the listener, noting that it does.
unfoldable pub declined : ℕ → String → ℕ → Client → Client × Bool
declined now proto port c =
    if skips c.config port
    then (note_skip now (record { proto = proto; port = port }) (skip_line proto port) c, true)
    else (c, false)

known_holder : String × Bool → String
known_holder (holder, true) = holder
known_holder (holder, false) = ""

-- macHeld: "" where there is no holder, or the read cannot say.
unfoldable pub mac_held : Mac → String → ℕ → String
unfolding known_holder
mac_held m proto port = elim m.mac_holder [
  | none ↦ ""
  | some check ↦ known_holder (check proto port)
]
