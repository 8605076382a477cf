-- ===== src/Mirror/Types.antt =====
-- mirror.go: the client's state, and what it learns from the Mac while a handler runs.
use drawbridge.Base.{ℕ, String, ◌≡◌, ◌↔◌, Bool, true, ◌&&◌, Option, List, [], arith, eq_iff}
use drawbridge.Base.Eq.{Comparable, ◌==◌, string_eq, nat_eq}
use drawbridge.Ring.{Ring}

pub record ListenerInfo : Type 0 where
  pub proto : String
  pub port : ℕ
  pub addr : String

pub record MirrorKey : Type 0 where
  pub proto : String
  pub port : ℕ

-- Go's == on the struct.
abbrev pub key_beq : MirrorKey → MirrorKey → Bool
key_beq a b = a.proto == b.proto && a.port == b.port

pub key_beq_iff : (a b : MirrorKey) → (key_beq a b ≡ true) ↔ (a ≡ b)
key_beq_iff a b = ground (arith, eq_iff a.proto b.proto)

instance abbrev pub key_eq : Comparable MirrorKey
key_eq = record { equal = key_beq; equal_iff = key_beq_iff }

-- `sock` names the listening socket that `stop` closes; as no two entries share it, it also stands
-- for the identity of the *mirrorEntry. `stats` is left out: no decision reads it.
pub record MirrorEntry : Type 0 where
  pub sock : ℕ
  pub refs : ℕ
  pub pending : Bool
  pub since : ℕ

pub record Observed : Type 0 where
  pub state : String
  pub since : ℕ

-- An armed time.AfterFunc of a reservation.
pub record Timer : Type 0 where
  pub at : ℕ
  pub key : MirrorKey
  pub sock : ℕ

-- The fields that are set before Run. `reserve_ttl` is 0 where the source's is not positive.
pub record Config : Type 0 where
  pub agent_port : ℕ
  pub guest_agent_port : ℕ
  pub skip : List (ℕ × Bool)
  pub reserve_ttl : ℕ

-- `open_socks` are the sockets that the process holds open, `next_sock` the next one's name.
pub record Client : Type 0 where
  pub config : Config
  pub open config use *
  pub mirrors : List (MirrorKey × MirrorEntry)
  pub obs : List (MirrorKey × Observed)
  pub refusals : Option Ring
  pub timers : List Timer
  pub open_socks : List ℕ
  pub next_sock : ℕ

-- The answer of net.Listen or net.ListenUDP.
pub data BindResult : Type 0 where
  bound eaddrinuse eacces failed : BindResult

-- What the Mac answers while one handler holds the lock: the clock, the MacHolder hook (`none` where
-- it is nil) with its (holder, known), and the bind on MirrorIP.
pub record Mac : Type 0 where
  pub now : ℕ
  pub mac_holder : Option (String → ℕ → String × Bool)
  pub listen : MirrorKey → BindResult

pub record Event : Type 0 where
  pub op : String
  pub proto : String
  pub port : ℕ
  pub addr : String
  pub listeners : List ListenerInfo

pub record ReserveReq : Type 0 where
  pub op : String
  pub proto : String
  pub port : ℕ
  pub addr : String

pub record ReserveResp : Type 0 where
  pub ok : Bool
  pub reason : String

-- New, with the fields that its caller sets: no mirrors, no sockets.
unfoldable pub new_client : Config → Option Ring → Client
new_client cfg ring = record {
  config = cfg;
  mirrors = [];
  obs = [];
  refusals = ring;
  timers = [];
  open_socks = [];
  next_sock = 0;
}
