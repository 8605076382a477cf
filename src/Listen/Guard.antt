-- ===== src/Listen/Guard.antt =====
-- listen.go: the sources that may connect, the listener that drops the others, and the listeners of the
-- transport with the bind of the guest's own address.
use drawbridge.Base.{
  ℕ, suc, Bool, true, false, not, ◌&&◌, ◌||◌, Option, none, some, List, [], ◌∷◌, ◌++◌, eqb, leb,
  if◌then◌else◌, any,
}
use drawbridge.Base.Eq.{Comparable}
use drawbridge.Limiter.{Limiter, allow}
use drawbridge.MacSync.Listeners.{Addr, addr_beq, addr_beq_iff, unmap, is_unspecified}
use drawbridge.Listen.Prefix.{
  Prefix, is_valid, is_zero, prefix_beq, prefix_from, prefix_contains, bit_len, is_loopback,
}
use drawbridge.Listen.Vznat.{Iface, first_host, vznat_prefix}

instance abbrev pub addr_eq : Comparable Addr
addr_eq = record { equal = addr_beq; equal_iff = addr_beq_iff }

-- hostPrefix
abbrev pub host_prefix : Addr → Prefix
host_prefix ip = prefix_from ip (bit_len ip)

-- sourceAllow.add
unfoldable pub add_source : Prefix → List Prefix → List Prefix
add_source p ps =
    if not (is_valid p) then ps else if any (λ e. prefix_beq e p) ps then ps else ps ++ p ∷ []

-- sourceAllow.allowed
unfoldable pub allowed : Addr → List Prefix → Bool
allowed ip ps =
    let ip' = unmap ip in
    if is_zero ip'
    then false
    else if is_loopback ip'
    then true
    else any (λ p. prefix_contains p ip') ps

-- A guardedListener: what became of the connections that it dropped, and the lines it logged.
pub record Guarded : Type 0 where
  pub sources : List Prefix
  pub limit : Limiter Addr
  pub shut_conns : List ℕ
  pub lines : List Addr

-- What the listener under it returns: an error, or a connection with its peer's address, if it has one,
-- at a time. Before it does, autoVZNAT may add a source, which the listener shares.
pub data Inner : Type 0 where
  fails : Inner
  source_comes : Prefix → Inner
  comes : ℕ → Option Addr → ℕ → Inner

pub data Accepted : Type 0 where
  failed : Accepted
  accepted : ℕ → Accepted

abbrev pub admits : List Prefix → Option Addr → Bool
admits ps none = true
admits ps (some ip) = allowed ip ps

-- c.Close and the line, for a connection that is not let in.
unfoldable pub drop_conn : ℕ → Option Addr → ℕ → Guarded → Guarded
drop_conn conn none now g = g
drop_conn conn (some ip) now g =
    let (limit', ok) = allow ip now g.limit in
    record g {
      limit = limit';
      shut_conns = conn ∷ g.shut_conns;
      lines = if ok then ip ∷ g.lines else g.lines;
    }

-- Accept, on what comes; `none` while it waits.
unfoldable pub accept : List Inner → Guarded → Guarded × Option Accepted
accept [] g = (g, none)
accept (fails ∷ es) g = (g, some failed)
accept (source_comes p ∷ es) g = accept es (record g { sources = add_source p g.sources })
accept (comes conn peer now ∷ es) g =
    let rest = accept es (drop_conn conn peer now g) in
    if admits g.sources peer then (g, some (accepted conn)) else rest

-- TransportListeners, its listeners by their addresses.
pub record TransportListeners : Type 0 where
  pub sources : List Prefix
  pub lns : List Addr
  pub shut_lns : List Addr
  pub is_closed : Bool
  pub has_publisher : Bool
  pub published : List Addr

-- publish, whose publisher then tries until it succeeds.
unfoldable pub publish : Addr → TransportListeners → TransportListeners
publish ip t =
    if is_zero ip || is_loopback ip || is_unspecified ip
    then t
    else if not t.has_publisher || not (eqb (count t.published) 0) || t.is_closed
    then t
    else record t { published = ip ∷ t.published }
  where
    count : List Addr → ℕ
    count [] = 0
    count (x ∷ xs) = suc (count xs)

-- start
unfoldable pub start : Addr → TransportListeners → TransportListeners × Bool
start ln t =
    if t.is_closed then (t, false) else (publish ln (record t { lns = t.lns ++ ln ∷ [] }), true)

unfoldable pub seed_source : Option Addr → TransportListeners → TransportListeners
seed_source none t = t
seed_source (some h) t = record t { sources = add_source (host_prefix h) t.sources }

unfoldable pub bound : Prefix → TransportListeners → TransportListeners
bound p t =
    let (t', ok) = start p.addr (seed_source (first_host p) t) in
    if ok then t' else record t' { shut_lns = p.addr ∷ t'.shut_lns }

-- One round of autoVZNAT: what the machine says of its interfaces, and whether the address can be
-- listened on. It ends the loop if it returns true.
unfoldable pub auto_round :
    Option (List Iface) → Bool → TransportListeners → TransportListeners × Bool
auto_round ifs listens t =
    let (p, ok) = vznat_prefix ifs in if ok && listens then (bound p t, true) else (t, false)

-- The wait after round i.
abbrev pub retry_delay : ℕ → ℕ
retry_delay i = if leb 30 i then 30_000_000_000 else 2_000_000_000
