-- ===== src/Mirror/Runs.antt =====
-- Runs of the mirror client at concrete events, and its theorems at concrete inputs.
use drawbridge.Base.{
  ℕ, ◌≡◌, refl, String, Bool, true, false, none, some, List, [], ◌∷◌, eqb, if◌then◌else◌, ◌&&◌, not,
}
use drawbridge.Base.Eq.{◌==◌, string_eq, nat_eq, contains}
use drawbridge.Base.Table.{lookup}
use drawbridge.Ring.{new_ring}
use drawbridge.Mirror.Types.{
  ListenerInfo, key_eq, Config, Client, Mac, Event, ReserveReq, new_client, bound, eaddrinuse,
}
use drawbridge.Mirror.Policy.{
  skips, mirrorable, proto_mirrorable, loopback_reachable, effective_agent_port, mac_held, forget,
}
use drawbridge.Mirror.Sockets.{register}
use drawbridge.Mirror.Session.{reconcile, add, del, close_all, key_of}
use drawbridge.Mirror.Reserve.{
  tcp_key, handle_reserve, reserve_bind, reserve_bound, release_if_pending,
}
use drawbridge.Mirror.Steps.{Step, event, session_end, reserve, ttl_fires, run}
use drawbridge.Mirror.View.{view_at, can_open}
use drawbridge.Mirror.Reconcile.{demand, asks, reconciled, reconcile-view}
use drawbridge.Mirror.Effects.{added, dropped, add-view, del-view}
use drawbridge.Mirror.Guest.{guest_run}
use drawbridge.Mirror.Refs.{Within, refs-le-demand}
use drawbridge.Mirror.Safety.{Allowed, run-new_client-Allowed}
use drawbridge.Mirror.Holders.{AllSeen, run-none_of_holder}
use drawbridge.Mirror.Reservations.{
  reserves, handle_reserve_refused, handle_reserve_answer, bind_answer,
}
use drawbridge.Mirror.Lifetime.{reservation_lifetime}
use drawbridge.Mirror.Owned.{IsOwned}
use drawbridge.Mirror.Leaks.{run-new_client-IsOwned, session_end-closes}

abbrev settings : Config
settings = record {
  agent_port = 4778;
  guest_agent_port = 0;
  skip = (22, true) ∷ [];
  reserve_ttl = 0;
}

-- A Mac that lets every bind through.
abbrev free_mac : Mac
free_mac = record { now = 7; mac_holder = none; listen = λ key. bound }

-- A Mac on which a native service holds 0.0.0.0:5432.
holder_of : String → ℕ → String × Bool
holder_of proto port = if eqb port 5432 then ("0.0.0.0:5432", true) else ("", true)

abbrev held_mac : Mac
held_mac = record { now = 7; mac_holder = some holder_of; listen = λ key. bound }

-- A Mac on which every bind fails with EADDRINUSE.
abbrev busy_mac : Mac
busy_mac = record { now = 7; mac_holder = none; listen = λ key. eaddrinuse }

abbrev tcp_listener : ℕ → ListenerInfo
tcp_listener port = record { proto = "tcp"; port = port; addr = "0.0.0.0" }

abbrev tcp6_listener : ℕ → ListenerInfo
tcp6_listener port = record { proto = "tcp"; port = port; addr = "::" }

abbrev snapshot_of : List ListenerInfo → Event
snapshot_of ls = record { op = "snapshot"; proto = ""; port = 0; addr = ""; listeners = ls }

abbrev event_of : String → ListenerInfo → Event
event_of op l = record { op = op; proto = l.proto; port = l.port; addr = l.addr; listeners = [] }

abbrev reserve_of : ℕ → ReserveReq
reserve_of port = record { op = "reserve"; proto = "tcp"; port = port; addr = "0.0.0.0" }

abbrev fresh : Client
fresh = new_client settings (some new_ring)

-- Two listeners on 8080, one on the skip-list, the agent's own, and a UDP client's autobind.
abbrev guest_listeners : List ListenerInfo
guest_listeners =
    tcp_listener 8080
    ∷ tcp6_listener 8080
    ∷ tcp_listener 22
    ∷ tcp_listener 4777
    ∷ record { proto = "udp"; port = 40000; addr = "0.0.0.0" }
    ∷ []

abbrev session_steps : List Step
session_steps =
    event free_mac (snapshot_of guest_listeners)
    ∷ event free_mac (event_of "del" (tcp_listener 8080))
    ∷ reserve free_mac (reserve_of 9000)
    ∷ ttl_fires (tcp_key 9000) 1
    ∷ reserve held_mac (reserve_of 5432)
    ∷ []

demand_8080 : demand settings guest_listeners (tcp_key 8080) ≡ 2
unfolding demand asks mirrorable skips lookup proto_mirrorable loopback_reachable
    effective_agent_port
demand_8080 = refl

demand_22 : demand settings guest_listeners (tcp_key 22) ≡ 0
unfolding demand asks mirrorable skips lookup proto_mirrorable loopback_reachable
    effective_agent_port
demand_22 = refl

reconcile-view_example :
    view_at (tcp_key 8080) (reconcile free_mac guest_listeners fresh)
    ≡ reconciled
        (demand fresh.config guest_listeners (tcp_key 8080))
        (can_open free_mac (tcp_key 8080))
        (view_at (tcp_key 8080) fresh)
reconcile-view_example = reconcile-view (tcp_key 8080) free_mac guest_listeners fresh

refs-le-demand_example :
    Within
      (demand settings (guest_run session_steps []) (tcp_key 8080))
      (view_at (tcp_key 8080) (run session_steps fresh))
refs-le-demand_example = refs-le-demand settings (some new_ring) session_steps (tcp_key 8080)

run-new_client-Allowed_example :
    Allowed settings (tcp_key 22) (view_at (tcp_key 22) (run session_steps fresh))
run-new_client-Allowed_example =
    run-new_client-Allowed settings (some new_ring) session_steps (tcp_key 22)

abbrev held_steps : List Step
held_steps =
    event held_mac (snapshot_of (tcp_listener 5432 ∷ []))
    ∷ reserve held_mac (reserve_of 5432)
    ∷ session_end
    ∷ []

held_steps_seen : AllSeen 5432 held_steps
unfolding mac_held holder_of
held_steps_seen = (refl, (refl, (tt, tt)))

run-none_of_holder_example : view_at (tcp_key 5432) (run held_steps fresh) ≡ none
unfolding new_client lookup
run-none_of_holder_example = run-none_of_holder 5432 held_steps fresh held_steps_seen refl

handle_reserve_refused_runs : (handle_reserve busy_mac (reserve_of 9000) fresh).0 ≡ fresh
unfolding handle_reserve reserve_bind skips lookup mac_held new_client
handle_reserve_refused_runs = handle_reserve_refused busy_mac (reserve_of 9000) fresh refl

handle_reserve_answer_runs :
    (handle_reserve held_mac (reserve_of 5432) fresh).1
    ≡ bind_answer (not (mac_held held_mac "tcp" 5432 == "")) bound
unfolding skips lookup new_client
handle_reserve_answer_runs = handle_reserve_answer held_mac (reserve_of 5432) fresh refl refl refl

reservation_lifetime_example :
    view_at
      (tcp_key 9000)
      (release_if_pending (tcp_key 9000) 0 (handle_reserve free_mac (reserve_of 9000) fresh).0)
    ≡ none
unfolding reserves can_open mac_held asks mirrorable skips lookup proto_mirrorable
    loopback_reachable effective_agent_port new_client handle_reserve reserve_bind reserve_bound
    register forget
reservation_lifetime_example =
    (reservation_lifetime free_mac free_mac (reserve_of 9000) (tcp_listener 9000) fresh refl refl).2

run-new_client-IsOwned_example : IsOwned (run session_steps fresh)
run-new_client-IsOwned_example = run-new_client-IsOwned settings (some new_ring) session_steps

session_end-closes_runs : contains 0 (close_all (run session_steps fresh)).open_socks ≡ false
session_end-closes_runs = session_end-closes settings (some new_ring) session_steps 0

add-view_runs : view_at (tcp_key 8080) (add free_mac (tcp_listener 8080) fresh) ≡ (
    if asks fresh.config (tcp_listener 8080) (tcp_key 8080)
    then added (can_open free_mac (tcp_key 8080)) (view_at (tcp_key 8080) fresh)
    else view_at (tcp_key 8080) fresh)
add-view_runs = add-view (tcp_key 8080) free_mac (tcp_listener 8080) fresh

del-view_runs : view_at (tcp_key 8080) (del (tcp_listener 8080) (run session_steps fresh)) ≡ (
    if mirrorable (run session_steps fresh).config (tcp_listener 8080)
      && key_of (tcp_listener 8080) == tcp_key 8080
    then dropped (view_at (tcp_key 8080) (run session_steps fresh))
    else view_at (tcp_key 8080) (run session_steps fresh))
del-view_runs = del-view (tcp_key 8080) (tcp_listener 8080) (run session_steps fresh)
