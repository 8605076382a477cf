-- ===== src/SyncPorts/Runs.antt =====
-- The theorems of the agent's Mac ports at concrete sets of listeners.
use drawbridge.Base.{◌≡◌, refl, true, false, [], ◌∷◌, arith}
use drawbridge.Base.Eq.{contains}
use drawbridge.Base.Table.{lookup}
use drawbridge.MacSync.Listeners.{v4_any, v4_loopback, Listener}
use drawbridge.MacSync.Syncer.{tick_events}
use drawbridge.AgentReserve.{PortId}
use drawbridge.SyncPorts.{
  MacPorts, Guest, key_for, port_id_eq, port_key_eq, gateway_eq, port_id_beq_iff, sync_events,
}
use drawbridge.SyncPorts.View.{Exclusive}
use drawbridge.SyncPorts.Served.{IsCoherent, Serves}
use drawbridge.SyncPorts.Track.{on_port}
use drawbridge.SyncPorts.Ticks.{sync_events-tick_events, sync_events-loses}

abbrev guest : Guest
guest = record { listens = λ id. true; puts = λ id. true; deletes = λ id. true }

abbrev web : PortId
web = record { proto = 6; port = 8080 }

abbrev serving_web : MacPorts
serving_web = record {
  mac = (web, record { key = key_for 6 v4_any 8080; gateway = 0 }) ∷ [];
  sync_owned = web ∷ [];
  steered = key_for 6 v4_any 8080 ∷ [];
  gateways = record { name = 0; id = web } ∷ [];
  next_gateway = 1;
}

serving_web-Exclusive : Exclusive serving_web
unfolding lookup contains
serving_web-Exclusive = λ id. ground arith

serving_web-IsCoherent : IsCoherent serving_web
unfolding lookup contains
serving_web-IsCoherent = record {
  own_keys = λ id e h. ground (arith, h, port_id_beq_iff web id);
  steers = λ k. ground arith;
  proxies = λ p. ground arith;
  fresh = λ p h. ground (arith, h);
  apart = λ p q hp hq e. ground (arith, hp, hq, port_id_beq_iff web p.id, port_id_beq_iff web q.id);
}

serving_web-Serves : Serves web true serving_web
unfolding Serves lookup contains
serving_web-Serves = (record { key = key_for 6 v4_any 8080; gateway = 0 }, refl, refl, refl)

abbrev on_any : Listener
on_any = record { proto = "tcp"; port = 8080; addr = v4_any; v6_only = false }

abbrev on_loopback : Listener
on_loopback = record { proto = "tcp"; port = 8080; addr = v4_loopback; v6_only = false }

-- The listener on every address gives way to one on the loopback.
sync_events-tick_events_example :
    Serves web true (sync_events guest (tick_events (on_any ∷ []) (on_loopback ∷ [])) serving_web)
unfolding contains
sync_events-tick_events_example =
    sync_events-tick_events guest web (on_any ∷ []) (on_loopback ∷ []) serving_web
      (λ id. (refl, refl, refl)) serving_web-Exclusive serving_web-IsCoherent refl
      serving_web-Serves refl

-- A server that listens on both stops listening on every address.
sync_events-loses_example :
    let last = on_any ∷ on_loopback ∷ [] in
    (on_port web (on_loopback ∷ []) ≡ true)
    × Serves web false (sync_events guest (tick_events last (on_loopback ∷ [])) serving_web)
unfolding contains
sync_events-loses_example =
    sync_events-loses guest web (on_any ∷ on_loopback ∷ []) (on_loopback ∷ []) serving_web
      (λ id. (refl, refl, refl)) serving_web-Exclusive serving_web-IsCoherent refl
      serving_web-Serves refl refl refl
