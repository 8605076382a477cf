-- ===== src/Relay/Flows.antt =====
-- The cap on the flow table, and what a datagram does to it.
use drawbridge.Base.{
  ◌&&◌, not, leb, if◌then◌else◌, ℕ, ◌≤◌, ◌≡◌, refl, Bool, Option, none, some, List, [], ◌∷◌, length,
  arith, ◌<◌,
}
use drawbridge.Base.Eq.{Comparable, ◌==◌}
use drawbridge.Base.Table.{
  lookup, insert, delete, length-delete-le, length-insert-le, lookup-insert,
}
use drawbridge.Relay.{
  Flow, FlowTable, new_flow_table, max_flows, stamp, touch, got, get, sweep, sweep_flows, FlowStep,
  gets, touches, sweeps, flow_step, flow_run,
}

abbrev pub sock_of : Option Flow → Option ℕ
sock_of none = none
sock_of (some f) = some f.sock

module _ {ℓ} {K : Type ℓ} ⦃c : Comparable K⦄ where
  length-delete-found :
      (peer : K) (f : Flow) (m : List (K × Flow))
      → lookup peer m ≡ some f
      → length (delete peer m) < length m
  unfolding lookup delete
  length-delete-found peer f [] h = ground arith
  length-delete-found peer f ((k, g) ∷ rest) h =
      ground (arith, length-delete-le peer rest, length-delete-found peer f rest)

  length-stamp :
      (peer : K) (now : ℕ) (o : Option Flow) (t : FlowTable K)
      → lookup peer t.flows ≡ o
      → length (stamp peer now o t).flows ≤ length t.flows
  unfolding stamp insert
  length-stamp peer now none t h = omega arith
  length-stamp peer now (some f) t h = omega (arith, length-delete-found peer f t.flows h)

  length-got :
      (peer : K) (now : ℕ) (dials : Bool) (o : Option Flow) (t : FlowTable K)
      → lookup peer t.flows ≡ o
      → length t.flows ≤ max_flows
      → length (got peer now dials o t).0.flows ≤ max_flows
  unfolding got
  length-got peer now dials none t h le =
      ground (arith, length-insert-le peer (record { sock = t.next_sock; last_seen = now }) t.flows)
  length-got peer now dials (some f) t h le = omega (arith, length-stamp peer now (some f) t h)

  length-sweep_flows :
      (now : ℕ) (m : List (K × Flow)) (socks : List ℕ)
      → length (sweep_flows now m socks).0 ≤ length m
  unfolding sweep_flows
  length-sweep_flows now [] socks = omega arith
  length-sweep_flows now ((k, f) ∷ rest) socks = ground (arith, length-sweep_flows now rest socks)

  step-le :
      (s : FlowStep K) (t : FlowTable K)
      → length t.flows ≤ max_flows
      → length (flow_step s t).flows ≤ max_flows
  unfolding flow_step
  step-le (gets peer now dials) t h =
      unfold get in length-got peer now dials (lookup peer t.flows) t refl h
  step-le (touches peer now) t h =
      unfold touch in omega (arith, length-stamp peer now (lookup peer t.flows) t refl)
  step-le (sweeps now) t h =
      unfold sweep in omega (arith, length-sweep_flows now t.flows t.open_socks)

  run-le_max_flows_from :
      (ss : List (FlowStep K)) (t : FlowTable K)
      → length t.flows ≤ max_flows
      → length (flow_run ss t).flows ≤ max_flows
  unfolding flow_run
  run-le_max_flows_from [] t h = h
  run-le_max_flows_from (s ∷ ss) t h = run-le_max_flows_from ss (flow_step s t) (step-le s t h)

  -- Whatever datagrams, replies and sweeps come, a table that starts empty never has more than 4096
  -- flows.
  pub run-le_max_flows :
      (ss : List (FlowStep K)) → length (flow_run ss new_flow_table).flows ≤ max_flows
  run-le_max_flows ss = run-le_max_flows_from ss new_flow_table (omega arith)

  -- What a datagram at `now` makes of its peer's flow.
  abbrev pub served : ℕ → Bool → FlowTable K → Option Flow → Option Flow
  served now dials t (some f) = some (record { sock = f.sock; last_seen = now })
  served now dials t none =
      if dials && not (leb max_flows (length t.flows))
      then some (record { sock = t.next_sock; last_seen = now })
      else none

  got-view :
      (peer other : K) (now : ℕ) (dials : Bool) (o : Option Flow) (t : FlowTable K)
      → lookup peer t.flows ≡ o
      → (lookup other (got peer now dials o t).0.flows
          ≡ (if peer == other then served now dials t o else lookup other t.flows))
        × ((got peer now dials o t).1 ≡ sock_of (served now dials t o))
  unfolding got stamp
  got-view peer other now dials none t h = ground (
    arith,
    c.equal_iff peer other,
    lookup-insert peer other (record { sock = t.next_sock; last_seen = now }) t.flows,
  )
  got-view peer other now dials (some f) t h =
      (lookup-insert peer other (record f { last_seen = now }) t.flows, refl)

  -- A datagram for a peer with a flow goes to that flow's socket and renews it; for a new peer a flow
  -- is opened, if the table has room and the dial succeeds, and otherwise the datagram is dropped.
  -- The flows of the other peers stay as they are.
  pub get-view :
      (peer other : K) (now : ℕ) (dials : Bool) (t : FlowTable K)
      → (lookup other (get peer now dials t).0.flows ≡ (
          if peer == other then served now dials t (lookup peer t.flows) else lookup other t.flows))
        × ((get peer now dials t).1 ≡ sock_of (served now dials t (lookup peer t.flows)))
  unfolding get
  get-view peer other now dials t = got-view peer other now dials (lookup peer t.flows) t refl
