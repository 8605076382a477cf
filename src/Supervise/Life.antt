-- ===== src/Supervise/Life.antt =====
-- The account over the agent's whole life.
use drawbridge.Base.{
  ℕ, zero, suc, ◌≡◌, refl, ap, Bool, true, false, Option, none, some, List, [], ◌∷◌, ◌++◌, map,
  length, arith,
}
use drawbridge.Base.Sets.{occurs, occurs-append}
use drawbridge.Base.Eq.{nat_eq}
use drawbridge.FdStore.{Inherited, parse_listen_env}
use drawbridge.Supervise.Cap.{
  acquire_trusted, release, release_trusted, track, untrack, admit_trusted,
}
use drawbridge.Supervise.Agent.{
  Notify, NotifyStore, new_notify, Supervisor, adopt_stored_fds, supervise_stored, supervise_ends,
}
use drawbridge.Supervise.Steps.{
  close_fds, recv_notify_fd, pick, handed_over, indexed, index_from, recv_oci_state, NotifyStep,
  probe_handoff, oci_handoff, adopts, goes_on, ends, gone_on, ended, notify_step, notify_run,
}
use drawbridge.Supervise.Account.{
  IsBalanced, held, Keeps, passed, close_fds-Keeps, accept_probe_fd-Keeps, accept_oci_fd-Keeps,
  adopt_parsed-Keeps, Parted, pick-parts,
}

-- The descriptors that a step takes in.
abbrev pub taken : NotifyStep → List ℕ
taken (probe_handoff is_listener same takes fds) = fds
taken (oci_handoff is_listener takes names fds) = fds
taken (adopts is_listener env pid) = passed (parse_listen_env env pid)
taken (goes_on k) = []
taken (ends k) = []

abbrev pub taken_by : List NotifyStep → List ℕ
taken_by [] = []
taken_by (t ∷ ts) = taken t ++ taken_by ts

recv_notify_fd-Keeps :
    (is_listener : Bool) (same : ℕ → ℕ → Bool) (takes : Bool) (fds : List ℕ) (s : Notify)
    → IsBalanced s
    → Keeps fds s (recv_notify_fd is_listener same takes fds s)
unfolding recv_notify_fd occurs
recv_notify_fd-Keeps is_listener same takes [] s h = (h, λ x. omega arith)
recv_notify_fd-Keeps is_listener same takes (fd ∷ extra) s h =
    let closed = close_fds-Keeps extra s h in
    let one = accept_probe_fd-Keeps is_listener same takes fd (close_fds extra s) closed.0 in
    (one.0, λ x. ground (arith, one.1 x, closed.1 x))

-- The chosen one and the others are all that there were, by their descriptors.
abbrev Chosen {ℓ} : {A : Type ℓ} → (A → ℕ) → List A → Option (A × List A) → Type 0
Chosen fd xs none = true ≡ true
Chosen fd xs (some (y, ys)) = (x : ℕ) → occurs x (map fd xs) ≡ occurs x (map fd (y ∷ ys))

pick-Chosen {ℓ} : {A : Type ℓ} (fd : A → ℕ) (k : ℕ) (xs : List A) → Chosen fd xs (pick k xs)
unfolding pick occurs
pick-Chosen fd k [] = refl
pick-Chosen fd zero (x ∷ xs) = λ z. refl
pick-Chosen {A} fd (suc k) (x ∷ xs) = go (pick k xs) (pick-Chosen fd k xs)
  where
    go :
        (o : Option (A × List A))
        → Chosen fd xs o
        → Chosen fd (x ∷ xs) (elim o [ none ↦ none | some (y, ys) ↦ some (y, x ∷ ys) ])
    go none h = refl
    go (some (y, ys)) h = λ z. ground (arith, h z)

indexed-Chosen : (o : Option ℕ) (fds : List ℕ) → Chosen (λ fd. fd) fds (indexed o fds)
unfolding indexed
indexed-Chosen none fds = refl
indexed-Chosen (some i) fds = pick-Chosen (λ fd. fd) i fds

occurs-map_self : (x : ℕ) (fds : List ℕ) → occurs x (map (λ fd. fd) fds) ≡ occurs x fds
unfolding occurs
occurs-map_self x [] = refl
occurs-map_self x (fd ∷ fds) = ground (arith, occurs-map_self x fds)

handed_over-Keeps :
    (is_listener takes : Bool) (o : Option (ℕ × List ℕ)) (fds : List ℕ) (s : Notify)
    → Chosen (λ fd. fd) fds o
    → IsBalanced s
    → Keeps fds s (handed_over is_listener takes o fds s)
unfolding handed_over occurs
handed_over-Keeps is_listener takes none fds s c h = close_fds-Keeps fds s h
handed_over-Keeps is_listener takes (some (fd, others)) fds s c h =
    let closed = close_fds-Keeps others s h in
    let one = accept_oci_fd-Keeps is_listener takes fd (close_fds others s) closed.0 in
    (
      one.0,
      λ x.
          ground (arith, one.1 x, closed.1 x, c x, occurs-map_self x fds, occurs-map_self x others),
    )

abbrev Counted {ℓ} : {A : Type ℓ} → List A → Option (A × List A) → Type 0
Counted xs none = true ≡ true
Counted xs (some (y, ys)) = length xs ≡ suc (length ys)

pick-Counted {ℓ} : {A : Type ℓ} (k : ℕ) (xs : List A) → Counted xs (pick k xs)
unfolding pick
pick-Counted k [] = refl
pick-Counted zero (x ∷ xs) = refl
pick-Counted {A} (suc k) (x ∷ xs) = go (pick k xs) (pick-Counted k xs)
  where
    go :
        (o : Option (A × List A))
        → Counted xs o
        → Counted (x ∷ xs) (elim o [ none ↦ none | some (y, ys) ↦ some (y, x ∷ ys) ])
    go none h = refl
    go (some (y, ys)) h = ap suc h

gone_on-Keeps :
    (o : Option (Inherited × List Inherited)) (s : Notify)
    → Counted s.adopting o
    → Chosen (λ i. i.fd) s.adopting o
    → IsBalanced s
    → Keeps [] s (gone_on o s)
unfolding gone_on supervise_stored admit_trusted acquire_trusted track release occurs
gone_on-Keeps none s l c h = (h, λ x. omega arith)
gone_on-Keeps (some (i, rest)) s l c h = (ground (arith, l), λ x. ground (arith, c x))

ended-Keeps :
    (o : Option (Supervisor × List Supervisor)) (s : Notify)
    → Parted s.supervisors o
    → IsBalanced s
    → Keeps [] s (ended o s)
unfolding ended supervise_ends untrack release release_trusted occurs
ended-Keeps none s p h = (h, λ x. omega arith)
ended-Keeps (some (g, rest)) s p h =
    (ground (arith, p.0 true, p.0 false), λ x. ground (arith, p.1 x))

step-Keeps : (t : NotifyStep) (s : Notify) → IsBalanced s → Keeps (taken t) s (notify_step t s)
unfolding notify_step recv_oci_state adopt_stored_fds
step-Keeps (probe_handoff is_listener same takes fds) s h =
    recv_notify_fd-Keeps is_listener same takes fds s h
step-Keeps (oci_handoff is_listener takes names fds) s h =
    handed_over-Keeps is_listener takes (indexed (index_from 0 names) fds) fds s
      (indexed-Chosen (index_from 0 names) fds) h
step-Keeps (adopts is_listener env pid) s h =
    adopt_parsed-Keeps is_listener (parse_listen_env env pid) s h
step-Keeps (goes_on k) s h =
    gone_on-Keeps (pick k s.adopting) s (pick-Counted k s.adopting)
      (pick-Chosen (λ i. i.fd) k s.adopting) h
step-Keeps (ends k) s h = ended-Keeps (pick k s.supervisors) s (pick-parts k s.supervisors) h

run-Keeps :
    (ts : List NotifyStep) (s : Notify) → IsBalanced s → Keeps (taken_by ts) s (notify_run ts s)
unfolding notify_run occurs
run-Keeps [] s h = (h, λ x. omega arith)
run-Keeps (t ∷ ts) s h =
    let one = step-Keeps t s h in
    let more = run-Keeps ts (notify_step t s) one.0 in
    (more.0, λ x. ground (arith, more.1 x, one.1 x, occurs-append x (taken t) (taken_by ts)))

-- Whatever handoffs come on the two sockets, whatever systemd passes on, and in whatever order
-- supervisors start and end: each bucket counts exactly the supervisors and the adoptions that hold
-- its slots, the capped one never more than 4096; and each descriptor, as often as it came in, is
-- supervised, being adopted, or closed, and only one of them.
pub run-new_notify-IsBalanced :
    (ts : List NotifyStep) (store : NotifyStore)
    → IsBalanced (notify_run ts (new_notify store))
      × ((x : ℕ) → held x (notify_run ts (new_notify store)) ≡ occurs x (taken_by ts))
run-new_notify-IsBalanced ts store =
    let all = run-Keeps ts (new_notify store) (omega arith) in
    (all.0, λ x. unfold occurs in ground (arith, all.1 x))
