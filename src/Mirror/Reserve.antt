-- ===== src/Mirror/Reserve.antt =====
-- mirror.go: bind reservations, their expiry, and the questions that other parts ask.
use drawbridge.Base.{
  ℕ, ◌+◌, String, Bool, true, false, not, ◌&&◌, ◌||◌, Option, none, some, List, [], ◌∷◌, eqb,
  if◌then◌else◌, is_some,
}
use drawbridge.Base.Eq.{◌==◌, string_eq}
use drawbridge.Base.Table.{lookup}
use drawbridge.Base.Text.{itoa, ◌<>◌}
use drawbridge.Mirror.Types.{
  MirrorKey, key_eq, MirrorEntry, Config, Client, bound, eaddrinuse, Mac, ReserveReq, ReserveResp,
}
use drawbridge.Mirror.Policy.{skips, note_skip, mac_held}
use drawbridge.Mirror.Sockets.{register, close_mirror}

abbrev pub resp_ok : ReserveResp
resp_ok = record { ok = true; reason = "" }

abbrev pub refused : String → ReserveResp
refused reason = record { ok = false; reason = reason }

abbrev pub tcp_key : ℕ → MirrorKey
tcp_key port = record { proto = "tcp"; port = port }

abbrev pub default_ttl : ℕ
default_ttl = 10_000_000_000

unfoldable pub effective_ttl : Config → ℕ
effective_ttl c = if eqb c.reserve_ttl 0 then default_ttl else c.reserve_ttl

abbrev pub arbitrate_line : ℕ → String
arbitrate_line port =
    "not arbitrating guest bind :" <> itoa port <> " (skip-list; -skip to override)"

-- The pending mirror, and the timer that drops it if no listener event adopts it.
unfoldable pub reserve_bound : Mac → MirrorKey → Client → Client
reserve_bound m key c =
    let c' = register m key 0 true c in
    record c' {
      timers =
          record { at = m.now + effective_ttl c.config; key = key; sock = c.next_sock } ∷ c'.timers;
    }

-- The bind, reserve-before-ack.
unfoldable pub reserve_bind : Mac → MirrorKey → Client → Client × ReserveResp
reserve_bind m key c = elim (m.listen key) [
  | bound ↦ (reserve_bound m key c, resp_ok)
  | eaddrinuse ↦ (c, refused "inuse")
  | _ ↦ (c, refused "unknown")
]

unfoldable pub handle_reserve : Mac → ReserveReq → Client → Client × ReserveResp
handle_reserve m r c =
    if not (r.op == "reserve") || not (r.proto == "tcp") || eqb r.port 0
    then (c, refused "unsupported")
    else if skips c.config r.port
    then (note_skip m.now (tcp_key r.port) (arbitrate_line r.port) c, resp_ok)
    else if is_some (lookup (tcp_key r.port) c.mirrors)
    then (c, resp_ok)
    else if mac_held m "tcp" r.port == ""
    then reserve_bind m (tcp_key r.port) c
    else (c, refused "inuse")

unfoldable pub release_entry : MirrorKey → ℕ → Option MirrorEntry → Client → Client
release_entry key sock none c = c
release_entry key sock (some e) c = if eqb e.sock sock && e.pending then close_mirror key e c else c

-- `sock` stands for the pointer `e`: cur == e.
unfoldable pub release_if_pending : MirrorKey → ℕ → Client → Client
release_if_pending key sock c = release_entry key sock (lookup key c.mirrors) c

-- Mirrors: whether proto:port is mirrored now.
unfoldable pub mirrors_port : String → ℕ → Client → Bool
mirrors_port proto port c = is_some (lookup (record { proto = proto; port = port }) c.mirrors)

-- MirroredPorts
unfoldable pub mirrored_ports : String → List (MirrorKey × MirrorEntry) → List ℕ
mirrored_ports proto [] = []
mirrored_ports proto ((key, e) ∷ rest) =
    let out = mirrored_ports proto rest in if key.proto == proto then key.port ∷ out else out
