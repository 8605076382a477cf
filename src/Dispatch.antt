-- ===== src/Dispatch.antt =====
-- internal/agent/transport.go: what the agent makes of a connection from the Mac, from its type frame
-- to the handler of its type. It joins TransportAuth, DialPool, AgentReserve and Limiter.
pub mod Admit
pub mod Authentic
pub mod Hello
pub mod Runs
use drawbridge.Base.{
  ℕ, ◌+◌, ◌*◌, String, ◌≡◌, ◌↔◌, Bool, true, false, not, ◌&&◌, ◌||◌, Option, none, some, List, [],
  ◌∷◌, eqb, if◌then◌else◌, arith, eq_iff, get_or,
}
use drawbridge.Base.Eq.{Comparable, ◌==◌, string_eq}
use drawbridge.Limiter.{Limiter, allow}
use drawbridge.TransportAuth.Frame.{TypeFrame}
use drawbridge.TransportAuth.Handshake.{Conn, Cause, cause_text, read_full}
use drawbridge.TransportAuth.Secret.{File}
use drawbridge.TransportAuth.Latch.{Latched}
use drawbridge.DialPool.{DialPool, park}
use drawbridge.AgentReserve.{Reserver, set_reserve_conn}
use drawbridge.Dispatch.Admit.{Verdict, drops, refuses, dispatches, admit}

-- authLogKey
pub record AuthLogKey : Type 0 where
  pub cause : String
  pub src : String

abbrev auth_log_key_beq : AuthLogKey → AuthLogKey → Bool
auth_log_key_beq a b = a.cause == b.cause && a.src == b.src

pub auth_log_key_beq_iff : (a b : AuthLogKey) → (auth_log_key_beq a b ≡ true) ↔ (a ≡ b)
auth_log_key_beq_iff a b = ground (arith, eq_iff a.cause b.cause, eq_iff a.src b.src)

instance abbrev pub auth_log_key_eq : Comparable AuthLogKey
auth_log_key_eq = record { equal = auth_log_key_beq; equal_iff = auth_log_key_beq_iff }

-- A refusal's line: the frame's type, the address of the peer and the cause.
pub record AuthLine : Type 0 where
  pub typ : ℕ
  pub src : String
  pub cause : String

-- The handlers that run on a connection of their own.
pub data Handler : Type 0 where
  serves_events serves_mac_sync : Handler
  splices relays : ℕ → Handler

-- The agent as its transport sees it. `handlers` are those that were started, each with its connection
-- as it was then; `shut_conns` the connections closed here.
pub record Agent : Type 0 where
  pub latched : Latched
  pub auth_log : Limiter AuthLogKey
  pub auth_lines : List AuthLine
  pub pool : DialPool
  pub reserver : Reserver
  pub handlers : List (ℕ × Handler × Conn)
  pub shut_conns : List ℕ

-- Connection's peer: its address as it is printed, and its host if it has one.
pub record Peer : Type 0 where
  pub src : String
  pub host : Option String

abbrev pub throttle_key : Option Cause → Peer → AuthLogKey
throttle_key cause p = record {
  cause = cause_text cause;
  src = elim p.host [ none ↦ p.src | some host ↦ host ];
}

-- refuseConn with its allowAuthLog at the time `now`.
unfoldable pub refuse_conn : ℕ → ℕ → Peer → ℕ → Option Cause → Agent → Agent
refuse_conn now conn peer typ cause a =
    let (log', ok) = allow (throttle_key cause peer) now a.auth_log in
    let line : AuthLine = record { typ = typ; src = peer.src; cause = cause_text cause } in
    record a {
      auth_log = log';
      auth_lines = if ok then line ∷ a.auth_lines else a.auth_lines;
      shut_conns = conn ∷ a.shut_conns;
    }

abbrev pub shut : ℕ → Agent → Agent
shut conn a = record a { shut_conns = conn ∷ a.shut_conns }

abbrev pub started : ℕ → Handler → Conn → Agent → Agent
started conn h c a = record a { handlers = (conn, h, c) ∷ a.handlers }

-- serveStream from its header on; `dials` tells whether net.Dial reaches the guest's port.
unfoldable pub stream_header : (ℕ → Bool) → ℕ → Conn → Option (List ℕ) → Agent → Agent
stream_header dials conn c none a = shut conn a
stream_header dials conn c (some hdr) a =
    let port = get_or hdr 1 0 * 256 + get_or hdr 2 0 in
    if eqb port 0 || not (eqb (get_or hdr 3 0) 0)
    then shut conn a
    else if eqb (get_or hdr 0 0) 6
    then (if dials port then started conn (splices port) c a else shut conn a)
    else if eqb (get_or hdr 0 0) 17
    then started conn (relays port) c a
    else shut conn a

unfoldable pub serve_stream : (ℕ → Bool) → ℕ → Conn → Agent → Agent
unfolding stream_header
serve_stream dials conn c a = let (c', hdr) = read_full 4 c in stream_header dials conn c' hdr a

-- The switch on the frame's type.
unfoldable pub dispatch : (ℕ → Bool) → ℕ → ℕ → Conn → Agent → Agent
dispatch dials typ conn c a =
    if eqb typ b'E'
    then started conn serves_events c a
    else if eqb typ b'S'
    then serve_stream dials conn c a
    else if eqb typ b'M'
    then started conn serves_mac_sync c a
    else if eqb typ b'D'
    then record a { pool = park conn a.pool }
    else if eqb typ b'R'
    then record a { reserver = set_reserve_conn conn a.reserver }
    else shut conn a

-- What arrives with a connection: what the secret's file holds when it is read, the time, the
-- connection's number and its peer, and which of the guest's ports can be dialled.
pub record Arrival : Type 0 where
  pub file : File
  pub now : ℕ
  pub conn : ℕ
  pub peer : Peer
  pub dials : ℕ → Bool

unfoldable pub settle : Arrival → Verdict → Conn → Agent → Agent
settle v drops c a = shut v.conn a
settle v (refuses typ cause) c a = refuse_conn v.now v.conn v.peer typ cause a
settle v (dispatches typ) c a = dispatch v.dials typ v.conn c a

-- handleTransportConn. The secret's path is the agent's SecretFile.
unfoldable pub handle_transport_conn :
    (List ℕ → List ℕ → List ℕ) → (String → String) → String → Arrival → Conn → Agent → Agent
unfolding settle
handle_transport_conn hmac clean path v c a =
    let (l, c', verdict) = admit hmac clean path v.file v.now c a.latched in
    settle v verdict c' (record a { latched = l })
