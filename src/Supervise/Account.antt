-- ===== src/Supervise/Account.antt =====
-- The slots add up, and no descriptor is lost.
use drawbridge.Base.{
  ℕ, zero, suc, ◌+◌, ◌≤◌, ◌≡◌, refl, Bool, true, false, not, ◌&&◌, Option, none, some, List, [],
  ◌∷◌, map, eqb, leb, if◌then◌else◌, if-both, length, arith,
}
use drawbridge.Base.Sets.{occurs}
use drawbridge.Base.Eq.{nat_eq}
use drawbridge.FdStore.{Inherited, Parsed, inherited, malformed, is_notify_name}
use drawbridge.Supervise.Cap.{
  Cap, Verdict, admitted, duplicate, full, acquire, acquire_trusted, track, admit_free, admit_probe,
  admit_trusted, max_supervised,
}
use drawbridge.Supervise.Agent.{
  Notify, Supervisor, refuse, supervise_new, probed, accept_probe_fd, accept_oci_fd, adopt_slot,
  adopt_one, adopt_all, adopt_parsed,
}
use drawbridge.Supervise.Steps.{close_fds, pick}

-- The supervisors that hold a slot of the bucket.
abbrev pub holding : Bool → List Supervisor → ℕ
holding b [] = 0
holding b (g ∷ gs) =
    let rest = holding b gs in if (if g.is_trusted then b else not b) then suc rest else rest

-- Each bucket counts exactly those that hold its slots, and the capped one is within the cap.
pub record IsBalanced (s : Notify) : Type 0 where
  pub capped : s.cap.n ≡ holding false s.supervisors + length s.adopting
  pub trusted : s.cap.trusted ≡ holding true s.supervisors
  pub within : s.cap.n ≤ max_supervised
  pub limit : s.cap.max ≡ max_supervised

-- Where a descriptor is, as often as it is in the lists: supervised, being adopted, or closed.
abbrev pub held : ℕ → Notify → ℕ
held x s =
    occurs x (map (λ g. g.fd) s.supervisors)
    + (occurs x (map (λ i. i.fd) s.adopting) + occurs x s.closed)

-- A step that takes in the descriptors `ds` keeps the balance, and has each of them once more.
abbrev pub Keeps : List ℕ → Notify → Notify → Type 0
Keeps ds s t = IsBalanced t × ((x : ℕ) → held x t ≡ occurs x ds + held x s)

pub close_fds-Keeps : (fds : List ℕ) (s : Notify) → IsBalanced s → Keeps fds s (close_fds fds s)
unfolding close_fds refuse occurs
close_fds-Keeps [] s h = (h, λ x. ground arith)
close_fds-Keeps (fd ∷ fds) s h =
    let more = close_fds-Keeps fds (refuse fd s) (ground arith) in
    (more.0, λ x. ground (arith, more.1 x))

-- What an answer of the probe's cap says of the slots.
abbrev fits_slot : Cap → Cap × Verdict → Bool
fits_slot c (d, duplicate) = true
fits_slot c (d, full) = true
fits_slot c (d, admitted) =
    eqb d.n (c.n + 1) && eqb d.trusted c.trusted && eqb d.max c.max && leb (c.n + 1) c.max

admit_free-fits :
    (fd : ℕ) (c : Cap) (r : Cap × Bool)
    → (r.1 ≡ true → fits_slot c (r.0, admitted) ≡ true)
    → fits_slot c (admit_free fd r) ≡ true
unfolding admit_free track
admit_free-fits fd c (d, false) h = refl
admit_free-fits fd c (d, true) h = h refl

admit_probe-fits :
    (fd : ℕ) (same : ℕ → ℕ → Bool) (c : Cap) → fits_slot c (admit_probe fd same c) ≡ true
unfolding admit_probe acquire
admit_probe-fits fd same c =
    ground (arith, admit_free-fits fd c (acquire c) (λ (e : (acquire c).1 ≡ true). ground arith))

probed-Keeps :
    (takes : Bool) (fd : ℕ) (s : Notify) (r : Cap × Verdict)
    → fits_slot s.cap r ≡ true
    → IsBalanced s
    → Keeps (fd ∷ []) s (probed takes fd s r)
unfolding probed supervise_new refuse occurs
probed-Keeps takes fd s (c, duplicate) f h = (ground arith, λ x. ground arith)
probed-Keeps takes fd s (c, full) f h = (ground arith, λ x. ground arith)
probed-Keeps takes fd s (c, admitted) f h = (ground arith, λ x. ground arith)

pub accept_probe_fd-Keeps :
    (is_listener : Bool) (same : ℕ → ℕ → Bool) (takes : Bool) (fd : ℕ) (s : Notify)
    → IsBalanced s
    → Keeps (fd ∷ []) s (accept_probe_fd is_listener same takes fd s)
unfolding accept_probe_fd occurs
accept_probe_fd-Keeps false same takes fd s h = unfold refuse in (ground arith, λ x. ground arith)
accept_probe_fd-Keeps true same takes fd s h =
    probed-Keeps takes fd s (admit_probe fd same s.cap) (admit_probe-fits fd same s.cap) h

pub accept_oci_fd-Keeps :
    (is_listener takes : Bool) (fd : ℕ) (s : Notify)
    → IsBalanced s
    → Keeps (fd ∷ []) s (accept_oci_fd is_listener takes fd s)
unfolding occurs accept_oci_fd refuse supervise_new admit_trusted acquire_trusted track
accept_oci_fd-Keeps false takes fd s h = (ground arith, λ x. ground arith)
accept_oci_fd-Keeps true takes fd s h = (ground arith, λ x. ground arith)

adopt_slot-Keeps :
    (i : Inherited) (s : Notify) (r : Cap × Bool)
    → fits_slot s.cap (r.0, if r.1 then admitted else full) ≡ true
    → IsBalanced s
    → Keeps (i.fd ∷ []) s (adopt_slot i s r)
unfolding adopt_slot occurs
adopt_slot-Keeps i s (c, false) f h = (ground arith, λ x. ground arith)
adopt_slot-Keeps i s (c, true) f h = (ground arith, λ x. ground arith)

acquire-fits :
    (c : Cap) → fits_slot c ((acquire c).0, if (acquire c).1 then admitted else full) ≡ true
unfolding acquire
acquire-fits c = ground arith

adopt_one-Keeps :
    (is_listener : ℕ → Bool) (i : Inherited) (s : Notify)
    → IsBalanced s
    → Keeps (i.fd ∷ []) s (adopt_one is_listener i s)
unfolding adopt_one occurs
adopt_one-Keeps is_listener i s h =
    let slot = adopt_slot-Keeps i s (acquire s.cap) (acquire-fits s.cap) h in
    if-both (Keeps (i.fd ∷ []) s) (not (is_notify_name i.name)) _ _
      (ground arith, λ x. ground arith)
      (if-both (Keeps (i.fd ∷ []) s) (not (is_listener i.fd)) _ _ (ground arith, λ x. ground arith)
        slot)

adopt_all-Keeps :
    (is_listener : ℕ → Bool) (is : List Inherited) (s : Notify)
    → IsBalanced s
    → Keeps (map (λ i. i.fd) is) s (adopt_all is_listener is s)
unfolding adopt_all occurs
adopt_all-Keeps is_listener [] s h = (h, λ x. omega arith)
adopt_all-Keeps is_listener (i ∷ is) s h =
    let one = adopt_one-Keeps is_listener i s h in
    let more = adopt_all-Keeps is_listener is (adopt_one is_listener i s) one.0 in
    (more.0, λ x. ground (arith, more.1 x, one.1 x))

-- What systemd passed.
abbrev pub passed : Parsed → List ℕ
passed malformed = []
passed (inherited is) = map (λ i. i.fd) is

pub adopt_parsed-Keeps :
    (is_listener : ℕ → Bool) (p : Parsed) (s : Notify)
    → IsBalanced s
    → Keeps (passed p) s (adopt_parsed is_listener p s)
unfolding adopt_parsed occurs
adopt_parsed-Keeps is_listener malformed s h = (h, λ x. omega arith)
adopt_parsed-Keeps is_listener (inherited is) s h = adopt_all-Keeps is_listener is s h

-- One of the supervisors, and the others.
abbrev pub Parted : List Supervisor → Option (Supervisor × List Supervisor) → Type 0
Parted gs none = true ≡ true
Parted gs (some (g, rest)) =
    ((b : Bool) → holding b gs ≡ holding b (g ∷ rest))
    × ((x : ℕ) → occurs x (map (λ y. y.fd) gs) ≡ occurs x (map (λ y. y.fd) (g ∷ rest)))

pub pick-parts : (k : ℕ) (gs : List Supervisor) → Parted gs (pick k gs)
unfolding pick occurs
pick-parts k [] = refl
pick-parts zero (g ∷ gs) = (λ b. refl, λ x. refl)
pick-parts (suc k) (g ∷ gs) = go (pick k gs) (pick-parts k gs)
  where
    go :
        (o : Option (Supervisor × List Supervisor))
        → Parted gs o
        → Parted (g ∷ gs) (elim o [ none ↦ none | some (y, ys) ↦ some (y, g ∷ ys) ])
    go none h = refl
    go (some (y, ys)) h = (λ b. ground (arith, h.0 b), λ x. ground (arith, h.1 x))
