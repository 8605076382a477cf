-- ===== src/Relay.antt =====
-- internal/udpframe/relay.go: the flow table of a framed stream. Times are nanoseconds.
pub mod Flows
pub mod Runs
use drawbridge.Base.{
  ℕ, suc, ◌+◌, Bool, true, false, not, ◌&&◌, ◌||◌, Option, none, some, List, [], ◌∷◌, ◌++◌, leb,
  ltb, eqb, if◌then◌else◌, length,
}
use drawbridge.Base.Eq.{Comparable, ◌==◌}
use drawbridge.Base.Table.{lookup, insert}

abbrev pub flow_idle_timeout : ℕ
flow_idle_timeout = 60_000_000_000

abbrev pub max_flows : ℕ
max_flows = 4096

-- A flow: the socket and when it was last used.
pub record Flow : Type 0 where
  pub sock : ℕ
  pub last_seen : ℕ

-- The table by peer, and the sockets that are open, `next_sock` the next one's name.
pub record FlowTable {ℓ} (K : Type ℓ) : Type ℓ where
  pub flows : List (K × Flow)
  pub open_socks : List ℕ
  pub next_sock : ℕ

abbrev pub new_flow_table {ℓ} : {K : Type ℓ} → FlowTable K
new_flow_table = record { flows = []; open_socks = []; next_sock = 0 }

-- conn.Close
unfoldable pub shut_sock : ℕ → List ℕ → List ℕ
shut_sock k [] = []
shut_sock k (s ∷ ss) = let others = shut_sock k ss in if eqb s k then others else s ∷ others

-- What happens to a table: a datagram for a peer, a reply to one, a sweep.
pub data FlowStep {ℓ} (K : Type ℓ) : Type ℓ where
  gets : K → ℕ → Bool → FlowStep K
  touches : K → ℕ → FlowStep K
  sweeps : ℕ → FlowStep K

module _ {ℓ} {K : Type ℓ} ⦃c : Comparable K⦄ where
  unfoldable pub stamp : K → ℕ → Option Flow → FlowTable K → FlowTable K
  stamp peer now none t = t
  stamp peer now (some f) t = record t {
    flows = insert peer (record f { last_seen = now }) t.flows;
  }

  -- touch
  unfoldable pub touch : K → ℕ → FlowTable K → FlowTable K
  touch peer now t = stamp peer now (lookup peer t.flows) t

  unfoldable pub got : K → ℕ → Bool → Option Flow → FlowTable K → FlowTable K × Option ℕ
  got peer now dials none t =
      if leb max_flows (length t.flows) then (t, none) else if not dials then (t, none) else (
        record t {
          flows = insert peer (record { sock = t.next_sock; last_seen = now }) t.flows;
          open_socks = t.next_sock ∷ t.open_socks;
          next_sock = suc t.next_sock;
        },
        some t.next_sock,
      )
  got peer now dials (some f) t = (stamp peer now (some f) t, some f.sock)

  -- get: the flow's socket, opened by `dial` for a new peer if that succeeds.
  unfoldable pub get : K → ℕ → Bool → FlowTable K → FlowTable K × Option ℕ
  get peer now dials t = got peer now dials (lookup peer t.flows) t

  -- One round of the sweeper.
  unfoldable pub sweep_flows : ℕ → List (K × Flow) → List ℕ → List (K × Flow) × List ℕ
  sweep_flows now [] socks = ([], socks)
  sweep_flows now ((k, f) ∷ rest) socks =
      let (kept, left) = sweep_flows now rest socks in
      if ltb (f.last_seen + flow_idle_timeout) now
      then (kept, shut_sock f.sock left)
      else ((k, f) ∷ kept, left)

  unfoldable pub sweep : ℕ → FlowTable K → FlowTable K
  sweep now t =
      let (kept, left) = sweep_flows now t.flows t.open_socks in
      record t { flows = kept; open_socks = left }

  unfoldable pub flow_step : FlowStep K → FlowTable K → FlowTable K
  flow_step (gets peer now dials) t = (get peer now dials t).0
  flow_step (touches peer now) t = touch peer now t
  flow_step (sweeps now) t = sweep now t

  unfoldable pub flow_run : List (FlowStep K) → FlowTable K → FlowTable K
  flow_run [] t = t
  flow_run (s ∷ ss) t = flow_run ss (flow_step s t)
