-- ===== src/Supervise/Runs.antt =====
-- The supervision's theorems at concrete histories.
use drawbridge.Base.{ℕ, ◌≡◌, refl, Bool, true, false, none, some, List, [], ◌∷◌, arith}
use drawbridge.Base.Bytes.{bytes, has_prefix}
use drawbridge.Mirror.Types.{Client, Mac, eaddrinuse, new_client}
use drawbridge.MacSync.Listeners.{v4_any}
use drawbridge.AgentReserve.{Reserver}
use drawbridge.FdStore.{valid_name, has_bad_rune, numbered, listen_fd_start}
use drawbridge.FdStore.Lines.{listen_env}
use drawbridge.Supervise.Agent.{NotifyStore, new_notify, adopt_stored_fds}
use drawbridge.Supervise.Steps.{NotifyStep, probe_handoff, oci_handoff, goes_on, ends, notify_run}
use drawbridge.Base.Sets.{occurs}
use drawbridge.Base.Eq.{nat_eq}
use drawbridge.Supervise.Account.{IsBalanced, held}
use drawbridge.Supervise.Life.{taken_by, run-new_notify-IsBalanced}
use drawbridge.Supervise.Restart.{everyone, onto, adopt_stored_fds-restart}
use drawbridge.Supervise.Answer.{Bind, BindAddr}

abbrev store : NotifyStore
store = record { sock = bytes "/run/systemd/notify"; nonce = bytes "18f3"; seq = 0; sent = [] }

abbrev no_twins : ℕ → ℕ → Bool
no_twins a b = false

abbrev life : List NotifyStep
life =
    probe_handoff true no_twins true (7 ∷ 8 ∷ [])
    ∷ oci_handoff true true (bytes "other" ∷ bytes "seccompFd" ∷ []) (9 ∷ 10 ∷ [])
    ∷ probe_handoff false no_twins true (11 ∷ [])
    ∷ ends 1
    ∷ goes_on 0
    ∷ []

run-new_notify-IsBalanced_example :
    IsBalanced (notify_run life (new_notify store))
    × ((x : ℕ) → held x (notify_run life (new_notify store)) ≡ occurs x (taken_by life))
run-new_notify-IsBalanced_example = run-new_notify-IsBalanced life store

adopt_stored_fds-restart_example :
    let names = bytes "notify-18f3-1" ∷ bytes "notify-18f3-2" ∷ [] in
    let s = adopt_stored_fds everyone (listen_env 812 names) 812 (new_notify store) in
    (s.adopting ≡ onto (numbered listen_fd_start names) []) × (s.closed ≡ []) × (s.store ≡ store)
unfolding valid_name has_bad_rune has_prefix
adopt_stored_fds-restart_example =
    adopt_stored_fds-restart 812 (bytes "notify-18f3-1") (bytes "notify-18f3-2" ∷ []) store
      (omega arith) (omega arith) refl refl

abbrev web_addr : BindAddr
web_addr = record { family = 2; addr = v4_any; port = 8080 }

abbrev web_bind : Bind
web_bind = record {
  is_bind = true;
  sockaddr = some web_addr;
  same_netns = some true;
  inet_stream = some true;
  id_valid = true;
}

abbrev reserver : Reserver
reserver = record { mac = []; res_conn = some 1; shut_conns = [] }

abbrev taken_mac : Mac
taken_mac = record { now = 7; mac_holder = none; listen = λ key. eaddrinuse }

abbrev client : Client
client =
    new_client (record { agent_port = 4777; guest_agent_port = 0; skip = []; reserve_ttl = 0 }) none
