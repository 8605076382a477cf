-- ===== src/AgentReserve.antt =====
-- internal/agent/reserve.go: the agent's half of reserve-before-ack. Connections are numbers.
pub mod EndToEnd
pub mod Runs
use drawbridge.Base.{
  ℕ, String, Bool, true, false, not, ◌&&◌, Option, none, some, List, [], ◌∷◌, eqb, if◌then◌else◌,
  any,
}
use drawbridge.Base.Eq.{◌==◌, string_eq}
use drawbridge.Mirror.Types.{ReserveReq, ReserveResp}

pub record PortId : Type 0 where
  pub proto : ℕ
  pub port : ℕ

-- The Mac ports (of the map `mac`, its keys), the parked 'R' connection, and the connections that
-- the agent closed.
pub record Reserver : Type 0 where
  pub mac : List PortId
  pub res_conn : Option ℕ
  pub shut_conns : List ℕ

abbrev pub proto_num : String → Option ℕ
proto_num proto = if proto == "tcp" then some 6 else if proto == "udp" then some 17 else none

-- a.mac[id]
unfoldable pub in_mac : ℕ → ℕ → Reserver → Bool
in_mac pn port a = any (λ id. eqb id.proto pn && eqb id.port port) a.mac

held_number : Bool → Option ℕ → ℕ → Reserver → Bool × Bool
held_number unlocked none port a = (false, true)
held_number unlocked (some pn) port a =
    if unlocked then (in_mac pn port a, true) else (false, false)

-- macPortHeld: held and known; `unlocked` is what TryLock returns.
unfoldable pub mac_port_held : Bool → String → ℕ → Reserver → Bool × Bool
unfolding held_number
mac_port_held unlocked proto port a = held_number unlocked (proto_num proto) port a

-- setReserveConn
unfoldable pub set_reserve_conn : ℕ → Reserver → Reserver
set_reserve_conn conn a = record a {
  res_conn = some conn;
  shut_conns = shut_old a.res_conn a.shut_conns;
}
  where
    shut_old : Option ℕ → List ℕ → List ℕ
    shut_old none ks = ks
    shut_old (some k) ks = k ∷ ks

-- What the agent makes of the Mac's response.
unfoldable pub reason_of : ReserveResp → String
reason_of resp = if resp.ok then "ok" else if resp.reason == "inuse" then "inuse" else "unknown"

-- The RPC on the connection: `none` is an error of the write, the read or the deadline.
unfoldable pub ask : Option ℕ → Option ReserveResp → Reserver → Reserver × String
ask none response a = (a, "unknown")
ask (some conn) none a = (record a { res_conn = none; shut_conns = conn ∷ a.shut_conns }, "unknown")
ask (some conn) (some resp) a = (a, reason_of resp)

-- ReservePort, with what the Mac would respond if it were asked.
unfoldable pub reserve_port : Bool → Option ReserveResp → String → ℕ → Reserver → Reserver × String
reserve_port unlocked response proto port a =
    let (held, known) = mac_port_held unlocked proto port a in
    if held && known then (a, "inuse") else ask a.res_conn response a
