-- ===== src/Relay/Runs.antt =====
-- The flow table's theorem at a concrete history.
use drawbridge.Base.{eqb, ℕ, ◌≡◌, if◌then◌else◌, ◌≤◌, true, List, [], ◌∷◌, length}
use drawbridge.Base.Eq.{nat_eq}
use drawbridge.Base.Table.{lookup}
use drawbridge.Relay.{
  FlowTable, get, FlowStep, gets, touches, sweeps, flow_run, new_flow_table, max_flows,
}
use drawbridge.Relay.Flows.{run-le_max_flows, served, sock_of, get-view}

abbrev traffic : List (FlowStep ℕ)
traffic = gets 7 0 true ∷ gets 8 5 true ∷ touches 7 61_000_000_000 ∷ sweeps 62_000_000_000 ∷ []

traffic_fits : length (flow_run traffic new_flow_table).flows ≤ max_flows
traffic_fits = run-le_max_flows traffic

abbrev table : FlowTable ℕ
table = record {
  flows = (7, record { sock = 1; last_seen = 3 }) ∷ [];
  open_socks = 1 ∷ [];
  next_sock = 2;
}

get-view_runs :
    (lookup 7 (get 8 5 true table).0.flows
      ≡ (if eqb 8 7 then served 5 true table (lookup 8 table.flows) else lookup 7 table.flows))
    × ((get 8 5 true table).1 ≡ sock_of (served 5 true table (lookup 8 table.flows)))
get-view_runs = get-view 8 7 5 true table
