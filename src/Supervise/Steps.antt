-- ===== src/Supervise/Steps.antt =====
-- The agent's supervision over its life: handoffs on both sockets, adoption, and ends, in any order.
use drawbridge.Base.{ℕ, zero, suc, ◌+◌, Bool, Option, none, some, List, [], ◌∷◌, if◌then◌else◌}
use drawbridge.Base.Eq.{◌==◌}
use drawbridge.Base.Bytes.{bytes, bytes_eq}
use drawbridge.FdStore.{Inherited, ListenEnv}
use drawbridge.Supervise.Agent.{
  Notify, Supervisor, refuse, accept_probe_fd, accept_oci_fd, adopt_stored_fds, supervise_stored,
  supervise_ends,
}

-- closeFds
unfoldable pub close_fds : List ℕ → Notify → Notify
close_fds [] s = s
close_fds (fd ∷ fds) s = close_fds fds (refuse fd s)

-- recvNotifyFd from the parsed rights on: the first is the handoff, the others are closed.
unfoldable pub recv_notify_fd : Bool → (ℕ → ℕ → Bool) → Bool → List ℕ → Notify → Notify
recv_notify_fd is_listener same takes [] s = s
recv_notify_fd is_listener same takes (fd ∷ extra) s =
    accept_probe_fd is_listener same takes fd (close_fds extra s)

-- slices.Index(st.Fds, seccompFdName)
unfoldable pub index_from : ℕ → List (List ℕ) → Option ℕ
index_from i [] = none
index_from i (name ∷ names) =
    let rest = index_from (i + 1) names in if name == bytes "seccompFd" then some i else rest

-- The k-th element, and the others.
unfoldable pub pick {ℓ} : {A : Type ℓ} → ℕ → List A → Option (A × List A)
pick k [] = none
pick zero (x ∷ xs) = some (x, xs)
pick (suc k) (x ∷ xs) = elim (pick k xs) [ none ↦ none | some (y, ys) ↦ some (y, x ∷ ys) ]

unfoldable pub handed_over : Bool → Bool → Option (ℕ × List ℕ) → List ℕ → Notify → Notify
handed_over is_listener takes none fds s = close_fds fds s
handed_over is_listener takes (some (fd, others)) fds s =
    accept_oci_fd is_listener takes fd (close_fds others s)

unfoldable pub indexed : Option ℕ → List ℕ → Option (ℕ × List ℕ)
indexed none fds = none
indexed (some i) fds = pick i fds

-- recvOCIState from the decoded state on: its fd names, and the rights.
unfoldable pub recv_oci_state : Bool → Bool → List (List ℕ) → List ℕ → Notify → Notify
unfolding handed_over indexed index_from
recv_oci_state is_listener takes names fds s =
    handed_over is_listener takes (indexed (index_from 0 names) fds) fds s

-- A handoff, with what the kernel says of it; the adoption at the start; the goroutine of an adopted
-- descriptor going on; and a supervisor's end. The last two say which one.
pub data NotifyStep : Type 0 where
  probe_handoff : Bool → (ℕ → ℕ → Bool) → Bool → List ℕ → NotifyStep
  oci_handoff : Bool → Bool → List (List ℕ) → List ℕ → NotifyStep
  adopts : (ℕ → Bool) → ListenEnv → ℕ → NotifyStep
  goes_on ends : ℕ → NotifyStep

unfoldable pub gone_on : Option (Inherited × List Inherited) → Notify → Notify
gone_on none s = s
gone_on (some (i, rest)) s = supervise_stored i rest s

unfoldable pub ended : Option (Supervisor × List Supervisor) → Notify → Notify
ended none s = s
ended (some (g, rest)) s = supervise_ends g rest s

unfoldable pub notify_step : NotifyStep → Notify → Notify
unfolding gone_on ended
notify_step (probe_handoff is_listener same takes fds) s =
    recv_notify_fd is_listener same takes fds s
notify_step (oci_handoff is_listener takes names fds) s =
    recv_oci_state is_listener takes names fds s
notify_step (adopts is_listener env pid) s = adopt_stored_fds is_listener env pid s
notify_step (goes_on k) s = gone_on (pick k s.adopting) s
notify_step (ends k) s = ended (pick k s.supervisors) s

unfoldable pub notify_run : List NotifyStep → Notify → Notify
notify_run [] s = s
notify_run (t ∷ ts) s = notify_run ts (notify_step t s)
