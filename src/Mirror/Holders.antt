-- ===== src/Mirror/Holders.antt =====
-- Ports that a native Mac service holds, and mirror.go leaves alone.
use drawbridge.Base.{ℕ, ◌≡◌, false, none, List, [], ◌∷◌, arith}
use drawbridge.Base.Eq.{◌==◌, string_eq}
use drawbridge.Mirror.Types.{key_eq, key_beq_iff, Client, Mac, Event}
use drawbridge.Mirror.Policy.{mac_held}
use drawbridge.Mirror.Session.{event_listener, handle_event}
use drawbridge.Mirror.Guest.{event_cases}
use drawbridge.Mirror.Reserve.{tcp_key}
use drawbridge.Mirror.Steps.{Step, event, session_end, reserve, ttl_fires, step, run}
use drawbridge.Mirror.View.{view_at, can_open}
use drawbridge.Mirror.Reconcile.{reconcile-view}
use drawbridge.Mirror.Effects.{add-view, del-view, close_all-view, release-view}
use drawbridge.Mirror.Reservations.{reserves, handle_reserve-view}

-- The Mac's fresh read names a native holder of the TCP port while the step runs. The end of a
-- session and an expiry open nothing, so they need no such read.
abbrev pub HolderSeen : ℕ → Step → Type 0
HolderSeen port (event m ev) = (mac_held m "tcp" port == "") ≡ false
HolderSeen port session_end = Unit {0}
HolderSeen port (reserve m r) = (mac_held m "tcp" port == "") ≡ false
HolderSeen port (ttl_fires key sock) = Unit {0}

abbrev pub AllSeen : ℕ → List Step → Type 0
AllSeen port [] = Unit {0}
AllSeen port (s ∷ ss) = HolderSeen port s × AllSeen port ss

module _ (port : ℕ) (c : Client) (free : view_at (tcp_key port) c ≡ none) where
  cannot_open :
      (m : Mac) → (mac_held m "tcp" port == "") ≡ false → can_open m (tcp_key port) ≡ false
  unfolding can_open
  cannot_open m h = ground arith

  event-none :
      (m : Mac) (ev : Event)
      → can_open m (tcp_key port) ≡ false
      → view_at (tcp_key port) (handle_event m ev c) ≡ none
  event-none m ev h =
      let j = tcp_key port in
      let l = event_listener ev in
      event_cases (λ _ c'. view_at j c' ≡ none) m ev [] c
        (rw (reconcile-view j m ev.listeners c, free, h) (ground arith))
        (rw (add-view j m l c, free, h) (ground arith)) (rw (del-view j l c, free) (ground arith))
        free

  step-none : (s : Step) → HolderSeen port s → view_at (tcp_key port) (step s c) ≡ none
  unfolding step reserves
  step-none (event m ev) h = event-none m ev (cannot_open m h)
  step-none session_end h = close_all-view (tcp_key port) c
  step-none (reserve m r) h = ground (
    arith,
    cannot_open m h,
    handle_reserve-view (tcp_key port) m r c,
    key_beq_iff (tcp_key r.port) (tcp_key port),
  )
  step-none (ttl_fires key sock) h =
      ground (arith, release-view (tcp_key port) key sock c, key_beq_iff key (tcp_key port))

-- While every read of the Mac's listeners names a native holder of a TCP port, no snapshot, event
-- or reservation takes that port from it: a port that is not mirrored at first never becomes so.
pub run-none_of_holder :
    (port : ℕ) (ss : List Step) (c : Client)
    → AllSeen port ss
    → view_at (tcp_key port) c ≡ none
    → view_at (tcp_key port) (run ss c) ≡ none
unfolding run
run-none_of_holder port [] c seen free = free
run-none_of_holder port (s ∷ ss) c seen free =
    run-none_of_holder port ss (step s c) seen.1 (step-none port c free s seen.0)
