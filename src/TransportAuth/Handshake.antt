-- ===== src/TransportAuth/Handshake.antt =====
-- handshake.go: both halves of the handshake over a connection.
use drawbridge.Base.{
  ℕ, ◌+◌, String, Bool, true, false, Option, none, some, List, [], ◌∷◌, ◌++◌, eqb, leb,
  if◌then◌else◌, take, drop, length,
}
use drawbridge.TransportAuth.Frame.{
  TypeFrame, frame_bytes, proof_len, auth_none, auth_frame, verify, mac_proof, agent_proof,
}

abbrev pub handshake_timeout : ℕ
handshake_timeout = 5_000_000_000

-- A connection as one side sees it: the bytes that the peer sends before it closes, stalls past the
-- deadline or fails, what this side has written, each Write a segment, and the deadlines armed.
-- `takes_deadline` and `takes_write` say whether SetDeadline and Write succeed on it.
pub record Conn : Type 0 where
  pub incoming : List ℕ
  pub written : List (List ℕ)
  pub read_deadline : Option ℕ
  pub write_deadline : Option ℕ
  pub takes_deadline : Bool
  pub takes_write : Bool

pub data Cause : Type 0 where
  peer_unauthenticated proof_mismatch no_local_secret incomplete secret_unreadable : Cause

-- Cause, a text; `none` is the empty one.
abbrev pub cause_text : Option Cause → String
cause_text none = ""
cause_text (some peer_unauthenticated) = "peer-unauthenticated"
cause_text (some proof_mismatch) = "invalid-secret"
cause_text (some no_local_secret) = "no-local-secret"
cause_text (some incomplete) = "handshake-incomplete"
cause_text (some secret_unreadable) = "secret-unreadable"

-- nil, or a *RefusedError, or an error of the connection.
pub data Outcome : Type 0 where
  passed : Outcome
  refused : Cause → Outcome
  io_error : Outcome

-- Conn.Write
unfoldable pub write : List ℕ → Conn → Conn × Bool
write bs c =
    if c.takes_write then (record c { written = c.written ++ bs ∷ [] }, true) else (c, false)

-- io.ReadFull of n bytes: all of them, or an error with the rest consumed.
unfoldable pub read_full : ℕ → Conn → Conn × Option (List ℕ)
read_full n c =
    if leb n (length c.incoming)
    then (record c { incoming = drop n c.incoming }, some (take n c.incoming))
    else (record c { incoming = [] }, none)

abbrev pub hello_bytes : TypeFrame → Option (List ℕ) → List ℕ → List ℕ
hello_bytes f none extra = frame_bytes f ++ extra
hello_bytes f (some proof) extra = frame_bytes f ++ proof ++ extra

abbrev pub effective_timeout : ℕ → ℕ
effective_timeout timeout = if eqb timeout 0 then handshake_timeout else timeout

-- SetReadDeadline, if the connection takes one, with the clear that is then deferred.
unfoldable pub arm_read : ℕ → Conn → Conn
arm_read at c = if c.takes_deadline then record c { read_deadline = some at } else c

unfoldable pub clear_read : Conn → Conn
clear_read c = if c.takes_deadline then record c { read_deadline = none } else c

-- SetDeadline arms both.
unfoldable pub arm_both : ℕ → Conn → Conn
arm_both at c =
    if c.takes_deadline then record c { read_deadline = some at; write_deadline = some at } else c

unfoldable pub clear_both : Conn → Conn
clear_both c =
    if c.takes_deadline then record c { read_deadline = none; write_deadline = none } else c

module _ (hmac : List ℕ → List ℕ → List ℕ) where
  abbrev pub proof_of : Option (List ℕ) → TypeFrame → Option (List ℕ)
  proof_of none f = none
  proof_of (some sec) f = some (mac_proof hmac sec f)

  -- ClientHello: the frame, the proof and what rides with them, in one Write.
  unfoldable pub client_hello : Option (List ℕ) → ℕ → List ℕ → Conn → Conn × TypeFrame × Bool
  client_hello sec typ extra c =
      let f = auth_frame typ sec in
      let (c', ok) = write (hello_bytes f (proof_of sec f) extra) c in (c', f, ok)

  agent_verdict : List ℕ → TypeFrame → Option (List ℕ) → Outcome
  agent_verdict sec f none = refused incomplete
  agent_verdict sec f (some got) =
      if verify (agent_proof hmac sec f) got then passed else refused proof_mismatch

  -- AwaitAgentProof at the time `now`.
  unfoldable pub await_agent_proof : Option (List ℕ) → TypeFrame → ℕ → ℕ → Conn → Conn × Outcome
  unfolding agent_verdict
  await_agent_proof none f timeout now c = (c, passed)
  await_agent_proof (some sec) f timeout now c =
      let (c', got) = read_full proof_len (arm_read (now + effective_timeout timeout) c) in
      (clear_read c', agent_verdict sec f got)

  -- The rest of ServerHandshake once the proof is read.
  server_reply : List ℕ → TypeFrame → Conn × Option (List ℕ) → Conn × Outcome
  server_reply sec f (c, none) = (c, refused incomplete)
  server_reply sec f (c, some got) =
      if verify (mac_proof hmac sec f) got
      then (let (c', ok) = write (agent_proof hmac sec f) c in
          (c', if ok then passed else refused incomplete))
      else (c, refused proof_mismatch)

  unfoldable pub server_handshake : Option (List ℕ) → TypeFrame → ℕ → ℕ → Conn → Conn × Outcome
  unfolding server_reply
  server_handshake none f timeout now c =
      (c, if eqb f.auth auth_none then passed else refused no_local_secret)
  server_handshake (some sec) f timeout now c =
      if eqb f.auth auth_none
      then (c, refused peer_unauthenticated)
      else (let (c', outcome) =
            server_reply sec f
              (read_full proof_len (arm_both (now + effective_timeout timeout) c)) in
          (clear_both c', outcome))
