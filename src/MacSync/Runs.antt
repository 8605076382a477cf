-- ===== src/MacSync/Runs.antt =====
-- The listener sync's theorems at concrete inputs.
use drawbridge.Base.{ℕ, Option, ◌≡◌, refl, true, false, Option, none, some, List, [], ◌∷◌, eqb}
use drawbridge.Base.Eq.{contains}
use drawbridge.Base.Sets.{put}
use drawbridge.MacSync.Listeners.{Listener, listener_eq, v4_loopback, v6_any}
use drawbridge.MacSync.Holder.{holder_check}
use drawbridge.MacSync.HolderAnswers.{says, holder_check-says}
use drawbridge.MacSync.Syncer.{
  Syncer, current_set, set_advertised, adv_keys, normalize, put_polled, put_udp, is_advertised,
  adv_key_of,
}
use drawbridge.MacSync.Streams.{Activation, spliced, activate, handle_stream}
use drawbridge.MacSync.Offer.{reaches, activate-offered}
use drawbridge.MacSync.Session.{Session, TickRead, start, ticks}
use drawbridge.MacSync.Replay.{Knows, last_read, ticks-start-Knows}

abbrev web : Listener
web = record { proto = "tcp"; port = 8080; addr = v6_any; v6_only = false }

abbrev db : Listener
db = record { proto = "tcp"; port = 5432; addr = v4_loopback; v6_only = false }

abbrev syncer : Syncer
syncer = record {
  exclude = λ l. eqb l.port 22;
  udp_ports = 53 ∷ [];
  advertised = none;
  session_up = false;
  last_emptied_log = none;
  refusals = none;
}

holder_check-says_example :
    says 8080 (db ∷ web ∷ []) (holder_check (some v4_loopback) "tcp" 8080 (some (db ∷ web ∷ [])))
    ≡ true
holder_check-says_example = holder_check-says 8080 0x7f000001 (some (db ∷ web ∷ []))

abbrev asks_web : Option Activation
asks_web = some (record { proto = 6; port_hi = 31; port_lo = 144; reserved = 0 })

abbrev set_of : Option (List Listener) → List Listener
set_of none = []
set_of (some ls) = ls

abbrev two : List Listener
two = set_of (current_set syncer (some (db ∷ web ∷ [])))

activate-offered_example :
    reaches syncer (db ∷ web ∷ []) (activate (λ p. true) 9 asks_web (set_advertised 5 two syncer)).1
    ≡ true
unfolding current_set
activate-offered_example = activate-offered (λ p. true) syncer (db ∷ web ∷ []) two 5 9 asks_web refl

spliced_web : (activate (λ p. true) 9 asks_web (set_advertised 5 two syncer)).1 ≡ spliced 8080
unfolding activate handle_stream set_advertised current_set is_advertised adv_keys put_udp put
    contains put_polled normalize adv_key_of
spliced_web = refl

abbrev fallback : Session
fallback = record { syncer = syncer; last = []; sent = []; last_sent = 0; ended = true }

abbrev session_of : Option Session → Session
session_of none = fallback
session_of (some ss) = ss

abbrev begun : Session
begun = session_of (start 1 (some (db ∷ [])) syncer)

abbrev at : ℕ → Option (List Listener) → TickRead
at now polled = record { now = now; excluded = λ l. eqb l.port 5432; polled = polled }

abbrev reads : List TickRead
reads = at 2 (some (db ∷ web ∷ [])) ∷ at 3 (some (web ∷ [])) ∷ at 4 none ∷ at 5 (some []) ∷ []

-- The database's port is excluded once the session runs; the failed poll ends it.
ticks-start-Knows_example :
    Knows
      (last_read syncer reads (set_of (current_set syncer (some (db ∷ [])))))
      (ticks reads begun)
unfolding start current_set
ticks-start-Knows_example =
    ticks-start-Knows 1 (some (db ∷ [])) syncer (set_of (current_set syncer (some (db ∷ [])))) begun
      reads refl refl
