-- ===== src/Leases/Resolve.antt =====
-- internal/limaaddr/limaaddr.go: ResolveTarget. What limactl says, the lease file and what answers a
-- probe are arguments; the notes are left out.
use drawbridge.Base.{
  ℕ, ◌≡◌, ◌⊎◌, inl, inr, refl, Bool, true, ◌||◌, Option, none, some, List, [], ◌∷◌, ◌++◌,
  if◌then◌else◌, any, arith, Bool-cases, if-both,
}
use drawbridge.Base.Eq.{◌==◌, contains}
use drawbridge.Base.Bytes.{bytes, bytes_eq, bytes_beq_iff}
use drawbridge.Base.Numerals.{decimal}
use drawbridge.Endpoint.HostPort.{join_host_port}
use drawbridge.MacSync.Listeners.{Addr}
use drawbridge.Leases.{Target, is_blank, pin_of, lease_candidates_from}
use drawbridge.Leases.Trusted.{Trusted, lease_candidates_from-Trusted}

pub data Source : Type 0 where
  vznat_direct vznat_leases ssh_forwarder unresolved : Source

pub record Resolution : Type 0 where
  pub endpoint : List ℕ
  pub source : Source

-- candidate
pub record Candidate : Type 0 where
  pub ip : List ℕ
  pub source : Source

-- Target.mayUseLoopbackForward
abbrev pub may_use_loopback_forward : Target → Bool
may_use_loopback_forward t = is_blank t.provider || t.provider == bytes "lima"

abbrev pub tcp_endpoint : List ℕ → ℕ → List ℕ
tcp_endpoint ip port = bytes "tcp://" ++ join_host_port ip (decimal port)

unfoldable pub fallback : Target → ℕ → Resolution
fallback t port =
    if may_use_loopback_forward t
    then record { endpoint = tcp_endpoint (bytes "127.0.0.1") port; source = ssh_forwarder }
    else record { endpoint = []; source = unresolved }

-- add, with `seen` as the addresses of the candidates so far.
unfoldable pub add_candidate : List ℕ → Source → List Candidate → List Candidate
add_candidate ip source cands =
    if is_blank ip || any (λ c. c.ip == ip) cands
    then cands
    else cands ++ record { ip = ip; source = source } ∷ []

unfoldable pub add_direct : Option (List ℕ) → List Candidate
add_direct none = []
add_direct (some ip) = add_candidate ip vznat_direct []

unfoldable pub add_leased : List (List ℕ) → List Candidate → List Candidate
add_leased [] cands = cands
add_leased (ip ∷ ips) cands = add_leased ips (add_candidate ip vznat_leases cands)

-- The probes, in order; `answers` tells which addresses do.
unfoldable pub probe : (List ℕ → Bool) → Target → ℕ → List Candidate → Resolution
probe answers t port [] = fallback t port
probe answers t port (c ∷ cs) =
    let rest = probe answers t port cs in
    if answers (join_host_port c.ip (decimal port))
    then record { endpoint = tcp_endpoint c.ip port; source = c.source }
    else rest

-- leaseCandidates: an unreadable file, `none`, gives no address.
unfoldable pub leased_of : (List ℕ → Option Addr) → Option (List ℕ) → Target → List (List ℕ)
leased_of parse_addr none t = []
leased_of parse_addr (some text) t = (lease_candidates_from parse_addr text t).0

-- ResolveTarget
unfoldable pub resolve_target :
    (List ℕ → Option Addr)
    → (List ℕ → Bool)
    → Option (List ℕ)
    → Option (List ℕ)
    → Target
    → ℕ
    → Resolution
resolve_target parse_addr answers guest_ip text t port =
    probe answers t port (add_leased (leased_of parse_addr text t) (add_direct guest_ip))

module _ (parse_addr : List ℕ → Option Addr) (answers : List ℕ → Bool)
    (guest_ip text : Option (List ℕ)) (t : Target) (port : ℕ) where
  -- limactl's answer, or an address that a record of the readable lease file entitles to it.
  abbrev pub Vouched : List ℕ → Type 0
  Vouched ip =
      (guest_ip ≡ some ip)
      ⊎ ((file : List ℕ) × (text ≡ some file) × Trusted parse_addr file t ip (pin_of t))

  abbrev pub Justified : Resolution → Type 0
  Justified r =
      (r ≡ fallback t port)
      ⊎ ((ip : List ℕ) × (r.endpoint ≡ tcp_endpoint ip port)
          × (answers (join_host_port ip (decimal port)) ≡ true)
          × Vouched ip)

  abbrev AllVouched : List Candidate → Type 0
  AllVouched [] = true ≡ true
  AllVouched (c ∷ cs) = Vouched c.ip × AllVouched cs

  append-AllVouched :
      (cs : List Candidate) (c : Candidate)
      → AllVouched cs
      → Vouched c.ip
      → AllVouched (cs ++ c ∷ [])
  append-AllVouched [] c h v = (v, refl)
  append-AllVouched (d ∷ cs) c h v = (h.0, append-AllVouched cs c h.1 v)

  add_candidate-AllVouched :
      (ip : List ℕ) (source : Source) (cs : List Candidate)
      → AllVouched cs
      → Vouched ip
      → AllVouched (add_candidate ip source cs)
  unfolding add_candidate
  add_candidate-AllVouched ip source cs h v =
      if-both AllVouched (is_blank ip || any (λ c. c.ip == ip) cs) cs _ h
        (append-AllVouched cs (record { ip = ip; source = source }) h v)

  add_direct-AllVouched : (o : Option (List ℕ)) → guest_ip ≡ o → AllVouched (add_direct o)
  unfolding add_direct
  add_direct-AllVouched none e = refl
  add_direct-AllVouched (some ip) e = add_candidate-AllVouched ip vznat_direct [] refl (inl e)

  add_leased-AllVouched :
      (ips : List (List ℕ)) (cs : List Candidate)
      → ((ip : List ℕ) → contains ip ips ≡ true → Vouched ip)
      → AllVouched cs
      → AllVouched (add_leased ips cs)
  unfolding add_leased contains
  add_leased-AllVouched [] cs v h = h
  add_leased-AllVouched (ip ∷ ips) cs v h =
      add_leased-AllVouched ips (add_candidate ip vznat_leases cs) (λ i e. v i (ground (arith, e)))
        (add_candidate-AllVouched ip vznat_leases cs h (v ip (ground (arith, bytes_beq_iff ip ip))))

  leased-Vouched :
      (o : Option (List ℕ)) (ip : List ℕ)
      → text ≡ o
      → contains ip (leased_of parse_addr o t) ≡ true
      → Vouched ip
  unfolding leased_of contains
  leased-Vouched none ip e h = absurd (ground (arith, h))
  leased-Vouched (some file) ip e h =
      inr (file, e, (lease_candidates_from-Trusted parse_addr file t ip h).1)

  probe-Justified : (cs : List Candidate) → AllVouched cs → Justified (probe answers t port cs)
  unfolding probe
  probe-Justified [] h = inl refl
  probe-Justified (c ∷ cs) h = elim (Bool-cases (answers (join_host_port c.ip (decimal port)))) [
    | inl a ↦ rw a (inr (c.ip, refl, a, h.0))
    | inr a ↦ rw a (probe-Justified cs h.1)
  ]

  -- What ResolveTarget returns is the fallback, which is the loopback's forward for a Lima machine and
  -- nothing for another, or an address that answered its probe and that either limactl gave or a record
  -- of the lease file is entitled to by its name, its subnet and the hardware address that is pinned.
  pub resolve_target-Justified : Justified (resolve_target parse_addr answers guest_ip text t port)
  unfolding resolve_target
  resolve_target-Justified =
      probe-Justified (add_leased (leased_of parse_addr text t) (add_direct guest_ip)) (
        add_leased-AllVouched (leased_of parse_addr text t) (add_direct guest_ip)
          (λ ip e. leased-Vouched text ip refl e) (add_direct-AllVouched guest_ip refl))
