-- ===== src/Dispatch/Admit.antt =====
-- transport.go: handleTransportConn up to the switch on the type.
use drawbridge.Base.{
  ℕ, ◌+◌, String, Bool, ◌&&◌, ◌||◌, Option, none, some, List, eqb, if◌then◌else◌, get_or,
}
use drawbridge.TransportAuth.Frame.{TypeFrame, auth_none, auth_static_hmac_v1}
use drawbridge.TransportAuth.Handshake.{
  Conn, Cause, secret_unreadable, Outcome, passed, refused, io_error, handshake_timeout, read_full,
  arm_read, clear_both, server_handshake,
}
use drawbridge.TransportAuth.Secret.{File, Loaded, ok, err}
use drawbridge.TransportAuth.Latch.{Latched, load_latched}

-- Closed in silence, refused for a cause, or passed on by its type.
pub data Verdict : Type 0 where
  drops : Verdict
  refuses : ℕ → Option Cause → Verdict
  dispatches : ℕ → Verdict

-- frame[:]
abbrev pub read_frame : List ℕ → TypeFrame
read_frame bs = record {
  typ = get_or bs 0 0;
  auth = get_or bs 1 0;
  byte2 = get_or bs 2 0;
  byte3 = get_or bs 3 0;
}

-- The reserved bytes and the authentication scheme.
abbrev pub known_frame : TypeFrame → Bool
known_frame f =
    (eqb f.byte2 0 && eqb f.byte3 0) && (eqb f.auth auth_none || eqb f.auth auth_static_hmac_v1)

-- CauseOf
abbrev pub cause_of : Outcome → Option Cause
cause_of passed = none
cause_of (refused cause) = some cause
cause_of io_error = none

-- From the handshake on; a passed connection has its deadlines cleared.
unfoldable pub verdict_of : TypeFrame → Conn × Outcome → Conn × Verdict
verdict_of f (c, passed) = (clear_both c, dispatches f.typ)
verdict_of f (c, refused cause) = (c, refuses f.typ (cause_of (refused cause)))
verdict_of f (c, io_error) = (c, refuses f.typ (cause_of io_error))

module _ (hmac : List ℕ → List ℕ → List ℕ) where
  unfoldable pub with_secret : TypeFrame → ℕ → Loaded (Option (List ℕ)) → Conn → Conn × Verdict
  unfolding verdict_of
  with_secret f now (err e) c = (c, refuses f.typ (some secret_unreadable))
  with_secret f now (ok sec) c = verdict_of f (server_handshake hmac sec f handshake_timeout now c)

module _ (hmac : List ℕ → List ℕ → List ℕ) (clean : String → String) where
  unfoldable pub framed :
      String → File → ℕ → Conn × Option (List ℕ) → Latched → Latched × Conn × Verdict
  unfolding with_secret
  framed path file now (c, none) l = (l, c, drops)
  framed path file now (c, some bs) l =
      let (l', loaded) = load_latched clean path file l in
      let (c', verdict) = with_secret hmac (read_frame bs) now loaded c in
      if known_frame (read_frame bs) then (l', c', verdict) else (l, c, drops)

  -- The latch after it, the connection and what becomes of it.
  unfoldable pub admit : String → File → ℕ → Conn → Latched → Latched × Conn × Verdict
  unfolding framed
  admit path file now c l =
      framed path file now (read_full 4 (arm_read (now + handshake_timeout) c)) l
