-- ===== src/Mirror/Sockets.antt =====
-- mirror.go and udp.go: opening and closing one mirror.
use drawbridge.Base.{ℕ, suc, Bool, false, not, ◌∷◌, keep, eqb, if◌then◌else◌}
use drawbridge.Base.Eq.{◌==◌, string_eq}
use drawbridge.Base.Table.{insert, delete}
use drawbridge.Mirror.Types.{MirrorKey, key_eq, MirrorEntry, Client, bound, Mac}
use drawbridge.Mirror.Policy.{entry_bind_failed, observe, forget, mac_held}

-- A bound socket, registered: c.mirrors[key] = &mirrorEntry{...}; c.forget(key).
unfoldable pub register : Mac → MirrorKey → ℕ → Bool → Client → Client
register m key refs pending c = forget key (record c {
  mirrors =
      insert key (record { sock = c.next_sock; refs = refs; pending = pending; since = m.now })
        c.mirrors;
  open_socks = c.next_sock ∷ c.open_socks;
  next_sock = suc c.next_sock;
})

-- e.stop()
unfoldable pub stop : MirrorEntry → Client → Client
stop e c = record c { open_socks = keep (λ s. not (eqb s e.sock)) c.open_socks }

-- e.stop(); delete(c.mirrors, key)
unfoldable pub close_mirror : MirrorKey → MirrorEntry → Client → Client
close_mirror key e c = let c' = stop e c in record c' { mirrors = delete key c'.mirrors }

-- logBindError: the log line aside, the failure is observed.
unfoldable pub log_bind_error : Mac → MirrorKey → Client → Client
log_bind_error m key c = observe m.now key entry_bind_failed c

unfoldable pub bind_mirror : Mac → MirrorKey → ℕ → Client → Client
bind_mirror m key refs c = elim (m.listen key) [
  | bound ↦ register m key refs false c
  | _ ↦ log_bind_error m key c
]

unfoldable pub open_locked : Mac → MirrorKey → ℕ → Client → Client
open_locked m key refs c =
    if key.proto == "udp"
    then bind_mirror m key refs c
    else if mac_held m key.proto key.port == ""
    then bind_mirror m key refs c
    else observe m.now key entry_bind_failed c
