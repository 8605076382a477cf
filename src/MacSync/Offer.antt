-- ===== src/MacSync/Offer.antt =====
-- What an activated reverse stream can reach.
use mathlib.Core.Path.{subst}
use mathlib.Core.Option.{some-injective}
use drawbridge.Base.{
  ℕ, ◌*◌, ◌+◌, ◌≡◌, refl, ap, ◌∙◌, Bool, true, false, not, ◌&&◌, ◌||◌, Option, none, some, List, [],
  ◌∷◌, eqb, any, arith,
}
use drawbridge.Base.Eq.{string_eq, contains}
use drawbridge.MacSync.Listeners.{Listener, listener_eq}
use drawbridge.Base.Sets.{put, any-put, contains-put}
use drawbridge.MacSync.Syncer.{
  Syncer, AdvKey, adv_key_eq, adv_key_beq, adv_key_of, adv_keys, put_key, put_normal, put_polled,
  put_udp, udp_service, normalize, normal_at, v4_address, current_set, set_advertised,
  is_advertised,
}
use drawbridge.MacSync.Replay.{set_advertised-advertised}
use drawbridge.MacSync.Streams.{
  Answered, closed, spliced, relayed, backend_gone, Activation, activate, handle_stream,
}

abbrev has_key : AdvKey → Option AdvKey → Bool
has_key k none = false
has_key k (some j) = adv_key_beq j k

abbrev named_by : (Listener → Bool) → Option Listener → Bool
named_by p none = false
named_by p (some l) = p l

contains-put_key :
    (k : AdvKey) (o : Option AdvKey) (ks : List AdvKey)
    → contains k (put_key o ks) ≡ (has_key k o || contains k ks)
unfolding put_key
contains-put_key k none ks = refl
contains-put_key k (some j) ks = contains-put j k ks

contains-adv_keys :
    (k : AdvKey) (set : List Listener)
    → contains k (adv_keys set) ≡ any (λ l. has_key k (adv_key_of l)) set
unfolding adv_keys contains
contains-adv_keys k [] = refl
contains-adv_keys k (l ∷ ls) =
    contains-put_key k (adv_key_of l) (adv_keys ls)
    ∙ ap (λ b. has_key k (adv_key_of l) || b) (contains-adv_keys k ls)

any-put_normal :
    (p : Listener → Bool) (o : Option Listener) (set : List Listener)
    → any p (put_normal o set) ≡ (named_by p o || any p set)
unfolding put_normal
any-put_normal p none set = refl
any-put_normal p (some l) set = any-put p l set

any-put_polled :
    (p : Listener → Bool) (exclude : Listener → Bool) (ls set : List Listener)
    → any p (put_polled exclude ls set)
      ≡ (any (λ l. named_by p (normalize exclude l)) ls || any p set)
unfolding put_polled
any-put_polled p exclude [] set = refl
any-put_polled p exclude (l ∷ ls) set = ground (
  arith,
  any-put_polled p exclude ls (put_normal (normalize exclude l) set),
  any-put_normal p (normalize exclude l) set,
)

any-put_udp :
    (p : Listener → Bool) (exclude : Listener → Bool) (ps : List ℕ) (set : List Listener)
    → any p (put_udp exclude ps set)
      ≡ (any (λ q. not (eqb q 0 || exclude (udp_service q)) && p (udp_service q)) ps || any p set)
unfolding put_udp
any-put_udp p exclude [] set = refl
any-put_udp p exclude (q ∷ qs) set = ground (
  arith,
  any-put_udp p exclude qs set,
  any-put_udp p exclude qs (put (udp_service q) set),
  any-put p (udp_service q) set,
)

-- A polled listener that stands for the port on the stream's side.
abbrev pub serves : (Listener → Bool) → ℕ → Listener → Bool
serves exclude p l = named_by (λ n. eqb n.port p) (normalize exclude l)

-- A configured UDP service that stands for the port.
abbrev pub serves_udp : (Listener → Bool) → ℕ → ℕ → Bool
serves_udp exclude p q = not (eqb q 0 || exclude (udp_service q)) && eqb q p

-- What a set read from the poll offers, by protocol number and port.
abbrev pub offered : Syncer → List Listener → ℕ → ℕ → Bool
offered s ls proto p =
    (eqb 6 proto && any (serves s.exclude p) ls)
    || (eqb 17 proto && any (serves_udp s.exclude p) s.udp_ports)

normalize-tcp :
    (exclude : Listener → Bool) (proto p : ℕ) (l : Listener)
    → named_by
        (λ n. has_key (record { proto = proto; port = p }) (adv_key_of n))
        (normalize exclude l)
      ≡ (eqb 6 proto && serves exclude p l)
unfolding normalize normal_at v4_address adv_key_of
normalize-tcp exclude proto p l = ground arith

any-tcp :
    (exclude : Listener → Bool) (proto p : ℕ) (ls : List Listener)
    → any
        (λ l.
          named_by
            (λ n. has_key (record { proto = proto; port = p }) (adv_key_of n))
            (normalize exclude l))
        ls
      ≡ (eqb 6 proto && any (serves exclude p) ls)
any-tcp exclude proto p [] = ground arith
any-tcp exclude proto p (l ∷ ls) =
    ground (arith, any-tcp exclude proto p ls, normalize-tcp exclude proto p l)

any-udp :
    (exclude : Listener → Bool) (proto p : ℕ) (qs : List ℕ)
    → any
        (λ q.
          not (eqb q 0 || exclude (udp_service q))
          && has_key (record { proto = proto; port = p }) (adv_key_of (udp_service q)))
        qs
      ≡ (eqb 17 proto && any (serves_udp exclude p) qs)
unfolding adv_key_of
any-udp exclude proto p [] = ground arith
any-udp exclude proto p (q ∷ qs) = ground (arith, any-udp exclude proto p qs)

adv_keys-offered :
    (s : Syncer) (ls : List Listener) (proto p : ℕ)
    → contains
        (record { proto = proto; port = p })
        (adv_keys (put_udp s.exclude s.udp_ports (put_polled s.exclude ls [])))
      ≡ offered s ls proto p
adv_keys-offered s ls proto p =
    let key : AdvKey = record { proto = proto; port = p } in
    let has : Listener → Bool = λ l. has_key key (adv_key_of l) in
    let polled = put_polled s.exclude ls [] in
    contains-adv_keys key (put_udp s.exclude s.udp_ports polled)
    ∙ any-put_udp has s.exclude s.udp_ports polled
    ∙ ground (
      arith,
      any-put_polled has s.exclude ls [],
      any-tcp s.exclude proto p ls,
      any-udp s.exclude proto p s.udp_ports,
    )

-- Where a stream's peer may be led.
abbrev pub reaches : Syncer → List Listener → Answered → Bool
reaches s ls closed = true
reaches s ls (spliced p) = not (eqb p 0) && any (serves s.exclude p) ls
reaches s ls (backend_gone p) = not (eqb p 0) && any (serves s.exclude p) ls
reaches s ls (relayed p) = not (eqb p 0) && any (serves_udp s.exclude p) s.udp_ports

-- What a published set bounds the activations to: the polled TCP listeners that normalize to the
-- port, and the configured UDP services.
pub is_advertised-offered :
    (s : Syncer) (ls set : List Listener) (now proto p : ℕ)
    → current_set s (some ls) ≡ some set
    → is_advertised proto p (set_advertised now set s).advertised ≡ offered s ls proto p
unfolding is_advertised current_set
is_advertised-offered s ls set now proto p h =
    subst (λ v. is_advertised proto p (set_advertised now v s).advertised ≡ offered s ls proto p)
      (some-injective _ _ h)
      (rw
        (set_advertised-advertised now (put_udp s.exclude s.udp_ports (put_polled s.exclude ls []))
          s)
        (adv_keys-offered s ls proto p))

-- What the Mac reads from a stream's peer leads to a connection to 127.0.0.1 only on a port that is
-- not 0 and that the set last published offers for the connection's protocol: a TCP connection for
-- a polled listener that normalizes to the port, and UDP for a configured service. Anything else is
-- closed.
pub activate-offered :
    (dials : ℕ → Bool) (s : Syncer) (ls set : List Listener) (now t : ℕ) (h : Option Activation)
    → current_set s (some ls) ≡ some set
    → reaches s ls (activate dials t h (set_advertised now set s)).1 ≡ true
unfolding activate handle_stream
activate-offered dials s ls set now t none e = refl
activate-offered dials s ls set now t (some h) e =
    let p = h.port_hi * 256 + h.port_lo in
    ground (arith, is_advertised-offered s ls set now h.proto p e)
