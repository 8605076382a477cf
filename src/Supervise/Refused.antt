-- ===== src/Supervise/Refused.antt =====
-- When a guest bind is refused, over both halves of the reservation.
use drawbridge.Base.{ℕ, Bool, true, false, not, ◌&&◌, ◌||◌, Option, none, some, eqb, is_some}
use drawbridge.Base.Eq.{◌==◌, string_eq}
use drawbridge.Base.Table.{lookup}
use drawbridge.Mirror.Types.{
  Client, ReserveResp, Mac, key_eq, BindResult, bound, eaddrinuse, eacces, failed,
}
use drawbridge.Mirror.Policy.{skips, mac_held}
use drawbridge.Mirror.Reserve.{tcp_key}
use drawbridge.Supervise.Answer.{Bind, BindAddr, is_inet, mirrorable_scope}

abbrev pub is_true : Option Bool → Bool
is_true none = false
is_true (some v) = v

-- Whether the agent judges the bind at all: a bind, still blocked, of an inet stream socket in its own
-- network namespace, to a port and an address that the Mac mirrors.
abbrev pub arbitrated : Bind → BindAddr → Bool
arbitrated b ba =
    b.is_bind
    && (is_inet ba.family && not (eqb ba.port 0) && mirrorable_scope ba.addr)
    && (is_true b.same_netns && is_true b.inet_stream && b.id_valid)

-- What the Mac finds of the port when it is asked.
abbrev pub is_eaddrinuse : BindResult → Bool
is_eaddrinuse bound = false
is_eaddrinuse eaddrinuse = true
is_eaddrinuse eacces = false
is_eaddrinuse failed = false

abbrev pub mac_has_it : Mac → ℕ → Client → Bool
mac_has_it m port c =
    not (skips c.config port)
    && not (is_some (lookup (tcp_key port) c.mirrors))
    && (not (mac_held m "tcp" port == "") || is_eaddrinuse (m.listen (tcp_key port)))

-- A response that says that the port is taken.
abbrev says_inuse : ReserveResp → Bool
says_inuse resp = not resp.ok && resp.reason == "inuse"
