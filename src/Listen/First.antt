-- ===== src/Listen/First.antt =====
-- Whom the guarded listener lets in.
use drawbridge.Base.{
  ℕ, ◌≡◌, ◌↔◌, refl, ap, ◌∙◌, Bool, true, false, ◌||◌, Option, none, some, List, [], ◌∷◌, ◌++◌,
  if◌then◌else◌, any, arith, inl, inr, Bool-cases,
}
use drawbridge.MacSync.Listeners.{Addr, ip4, addr_beq_iff, unmap}
use drawbridge.Listen.Prefix.{Prefix, is_valid, prefix_beq, prefix_from, prefix_contains}
use drawbridge.Listen.Vznat.{Iface, first_host, vznat_prefix}
use drawbridge.Listen.Guard.{
  host_prefix, add_source, allowed, Guarded, Inner, fails, source_comes, comes, Accepted, failed,
  accepted, admits, drop_conn, accept, TransportListeners, publish, start, seed_source, bound,
  auto_round,
}

-- The connections of strangers that come before the first that is let in, or before an error.
abbrev pub strangers : List Prefix → List Inner → List ℕ
strangers ps [] = []
strangers ps (fails ∷ es) = []
strangers ps (source_comes p ∷ es) = strangers (add_source p ps) es
strangers ps (comes conn peer now ∷ es) = if admits ps peer then [] else conn ∷ strangers ps es

-- What comes first of what is not a stranger's.
abbrev pub first_welcome : List Prefix → List Inner → Option Accepted
first_welcome ps [] = none
first_welcome ps (fails ∷ es) = some failed
first_welcome ps (source_comes p ∷ es) = first_welcome (add_source p ps) es
first_welcome ps (comes conn peer now ∷ es) =
    if admits ps peer then some (accepted conn) else first_welcome ps es

-- The sources with those that come before Accept returns.
abbrev pub sources_then : List Prefix → List Inner → List Prefix
sources_then ps [] = ps
sources_then ps (fails ∷ es) = ps
sources_then ps (source_comes p ∷ es) = sources_then (add_source p ps) es
sources_then ps (comes conn peer now ∷ es) = if admits ps peer then ps else sources_then ps es

abbrev pub pushed : List ℕ → List ℕ → List ℕ
pushed [] ks = ks
pushed (c ∷ cs) ks = pushed cs (c ∷ ks)

drop_conn-sources :
    (conn : ℕ) (ip : Addr) (now : ℕ) (g : Guarded)
    → ((drop_conn conn (some ip) now g).sources ≡ g.sources)
      × ((drop_conn conn (some ip) now g).shut_conns ≡ conn ∷ g.shut_conns)
unfolding drop_conn
drop_conn-sources conn ip now g = (refl, refl)

-- Whatever comes, in whatever order: Accept returns the first connection whose source is allowed or
-- has no address, or an error before it; it closes the strangers' that came before, all of them and no
-- other; each is judged by the sources as they are when it comes, and the sources stay as they are but
-- for those that are added meanwhile.
pub accept-first :
    (es : List Inner) (g : Guarded)
    → ((accept es g).1 ≡ first_welcome g.sources es)
      × ((accept es g).0.shut_conns ≡ pushed (strangers g.sources es) g.shut_conns)
      × ((accept es g).0.sources ≡ sources_then g.sources es)
unfolding accept
accept-first [] g = (refl, refl, refl)
accept-first (fails ∷ es) g = (refl, refl, refl)
accept-first (source_comes p ∷ es) g =
    accept-first es (record g { sources = add_source p g.sources })
accept-first (comes conn none now ∷ es) g = (refl, refl, refl)
accept-first (comes conn (some ip) now ∷ es) g =
    let g' = drop_conn conn (some ip) now g in
    ground (arith, accept-first es g', drop_conn-sources conn ip now g)

prefix_beq_iff : (p q : Prefix) → (prefix_beq p q ≡ true) ↔ (p ≡ q)
prefix_beq_iff p q = ground (arith, addr_beq_iff p.addr q.addr)

any-same :
    (f : Prefix → Bool) (p : Prefix) (ps : List Prefix)
    → any (λ e. prefix_beq e p) ps ≡ true
    → f p ≡ true
    → any f ps ≡ true
any-same f p [] h k = ground (arith, h)
any-same f p (q ∷ ps) h k = elim (Bool-cases (prefix_beq q p)) [
  | inl e ↦ ground (arith, k, ap f ((prefix_beq_iff q p).0 e))
  | inr e ↦ ground (arith, h, e, any-same f p ps)
]

any-append :
    (f : Prefix → Bool) (ps : List Prefix) (p : Prefix) → any f (ps ++ p ∷ []) ≡ (any f ps || f p)
any-append f [] p = ground arith
any-append f (q ∷ ps) p = ground (arith, any-append f ps p)

any-add_source :
    (f : Prefix → Bool) (p : Prefix) (ps : List Prefix)
    → is_valid p ≡ true
    → f p ≡ true
    → any f (add_source p ps) ≡ true
unfolding add_source
any-add_source f p ps v k = ground (arith, v, k, any-same f p ps, any-append f ps p)

host_prefix-contains : (n : ℕ) → prefix_contains (host_prefix (ip4 n)) (ip4 n) ≡ true
unfolding prefix_contains prefix_from
host_prefix-contains n = ground arith

-- The listener's own address is among those served, and the Mac's among the sources.
abbrev pub Reaches : Addr → ℕ → TransportListeners → TransportListeners → Type 0
Reaches ln mac t t' =
    (t'.lns ≡ t.lns ++ ln ∷ []) × (t'.shut_lns ≡ t.shut_lns) × (allowed (ip4 mac) t'.sources ≡ true)

publish_fields :
    (ip : Addr) (t : TransportListeners)
    → ((publish ip t).lns ≡ t.lns)
      × ((publish ip t).shut_lns ≡ t.shut_lns)
      × ((publish ip t).sources ≡ t.sources)
unfolding publish
publish_fields ip t = ground arith

allowed-seed :
    (mac : ℕ) (ps : List Prefix) → allowed (ip4 mac) (add_source (host_prefix (ip4 mac)) ps) ≡ true
unfolding allowed unmap
allowed-seed mac ps =
    let v : is_valid (host_prefix (ip4 mac)) ≡ true = unfold prefix_from in refl in
    ground (
      arith,
      any-add_source (λ p. prefix_contains p (ip4 mac)) (host_prefix (ip4 mac)) ps v
          (host_prefix-contains mac),
    )

bound-Reaches :
    (p : Prefix) (mac : ℕ) (t : TransportListeners)
    → first_host p ≡ some (ip4 mac)
    → t.is_closed ≡ false
    → Reaches p.addr mac t (bound p t)
unfolding bound start seed_source
bound-Reaches p mac t h k =
    let t' : TransportListeners = record t {
      sources = add_source (host_prefix (ip4 mac)) t.sources;
      lns = t.lns ++ p.addr ∷ [];
    } in
    let e : bound p t ≡ publish p.addr t' = rw h (rw k refl) in
    let same = publish_fields p.addr t' in
    (
      ap (λ (x : TransportListeners). x.lns) e ∙ same.0,
      ap (λ (x : TransportListeners). x.shut_lns) e ∙ same.1,
      ap (λ (x : TransportListeners). allowed (ip4 mac) x.sources) e
          ∙ ap (allowed (ip4 mac)) same.2
          ∙ allowed-seed mac t.sources,
    )

-- Once the guest has an address on the Mac's network that can be listened on, a round of autoVZNAT is
-- its last: the transport listens there too, until it is closed, and the first host of that network,
-- which is the Mac, is an allowed source from then on.
pub auto_round-Reaches :
    (ifs : List Iface) (p : Prefix) (mac : ℕ) (t : TransportListeners)
    → vznat_prefix (some ifs) ≡ (p, true)
    → first_host p ≡ some (ip4 mac)
    → t.is_closed ≡ false
    → ((auto_round (some ifs) true t).1 ≡ true)
      × Reaches p.addr mac t (auto_round (some ifs) true t).0
unfolding auto_round
auto_round-Reaches ifs p mac t found h k = rw found (refl, bound-Reaches p mac t h k)
