-- ===== src/AgentReserve/Runs.antt =====
-- The reservation's theorem at a concrete guest bind.
use drawbridge.Base.{
  ℕ, String, ◌≡◌, ◌≢◌, refl, ◌⊎◌, true, false, ◌&&◌, none, some, [], ◌∷◌, is_some,
}
use drawbridge.Base.Table.{lookup}
use drawbridge.Mirror.Types.{Client, Config, Mac, bound, new_client}
use drawbridge.Mirror.Policy.{skips, mac_held}
use drawbridge.Mirror.Reserve.{tcp_key, handle_reserve, reserve_bind}
use drawbridge.Mirror.View.{view_at}
use drawbridge.AgentReserve.{Reserver, in_mac, mac_port_held, ask, reason_of, reserve_port}
use drawbridge.AgentReserve.EndToEnd.{request, reserve_port-handle_reserve}

abbrev plain : Config
plain = record { agent_port = 4777; guest_agent_port = 0; skip = (22, true) ∷ []; reserve_ttl = 0 }

abbrev idle_mac : Mac
idle_mac = record { now = 7; mac_holder = none; listen = λ key. bound }

abbrev idle_client : Client
idle_client = new_client plain none

abbrev agent_side : Reserver
agent_side = record {
  mac = record { proto = 6; port = 5432 } ∷ [];
  res_conn = some 1;
  shut_conns = [];
}

reserve_port-handle_reserve_example :
    (◌≡◌ {A = String} "tcp" "tcp")
    × (◌≢◌ {A = ℕ} 9000 0)
    × ((true ≡ false) ⊎ (in_mac 6 9000 agent_side ≡ false))
    × (is_some agent_side.res_conn && true ≡ true)
    × ((skips idle_client.config 9000 ≡ true)
        ⊎ (is_some (
              view_at
                (tcp_key 9000)
                (handle_reserve idle_mac (request "tcp" 9000 "0.0.0.0") idle_client).0)
            ≡ true))
unfolding reserve_port mac_port_held in_mac ask reason_of handle_reserve reserve_bind skips lookup
    mac_held new_client
reserve_port-handle_reserve_example =
    reserve_port-handle_reserve true true idle_mac "tcp" 9000 "0.0.0.0" agent_side idle_client refl
