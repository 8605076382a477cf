-- ===== src/Mirror/Steps.antt =====
-- mirror.go: the client as the sequence of its critical sections. The 'E' session, the 'R' session
-- and the reservation timers run on their own goroutines; each takes c.mu for one whole step.
use drawbridge.Base.{ℕ, List, [], ◌∷◌}
use drawbridge.Mirror.Types.{MirrorKey, Client, Mac, Event, ReserveReq}
use drawbridge.Mirror.Session.{handle_event, close_all}
use drawbridge.Mirror.Reserve.{handle_reserve, release_if_pending}

pub data Step : Type 0 where
  event : Mac → Event → Step
  session_end : Step
  reserve : Mac → ReserveReq → Step
  ttl_fires : MirrorKey → ℕ → Step

unfoldable pub step : Step → Client → Client
step (event m ev) c = handle_event m ev c
step session_end c = close_all c
step (reserve m r) c = (handle_reserve m r c).0
step (ttl_fires key sock) c = release_if_pending key sock c

unfoldable pub run : List Step → Client → Client
run [] c = c
run (s ∷ ss) c = run ss (step s c)
