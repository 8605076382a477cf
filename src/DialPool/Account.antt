-- ===== src/DialPool/Account.antt =====
-- What the pool keeps, and what becomes of each connection.
use drawbridge.Base.{
  ℕ, suc, ◌+◌, ◌≡◌, refl, Bool, true, false, not, ◌&&◌, ◌||◌, List, [], ◌∷◌, map, eqb, leb, length,
  arith,
}
use drawbridge.Base.Sets.{
  remove, occurs, occurs-remove, occurs-append, length-remove, length-remove-le,
}
use drawbridge.Base.Eq.{nat_eq, contains}
use drawbridge.DialPool.{
  DialPool, new_dial_pool, pool_cap, park, park_open, watch_ends, pop_round, pop_waits, pop_expires,
  close, PoolStep, parks, watch_returns, waits, expires, pops, closes, delivers, deliver, Sending,
  sending_eq, sending_beq_iff, pool_step, pool_run,
}

-- No more than the cap is parked, nothing is while a pop waits, and nothing once closed.
abbrev pub sound : DialPool → Bool
sound p =
    leb (length p.conns) pool_cap
    && (eqb (length p.conns) 0 || (eqb (length p.waiters) 0 && not p.closed))

-- Where a connection is, or went, as often as it is in the lists.
abbrev pub held : ℕ → DialPool → ℕ
held c p =
    occurs c p.conns
    + (occurs c (map (λ x. x.conn) p.sending)
        + (occurs c p.handed + (occurs c p.lost + occurs c p.shut)))

abbrev pub arrivals : List PoolStep → ℕ
arrivals [] = 0
arrivals (parks c ∷ ss) = suc (arrivals ss)
arrivals (watch_returns c ∷ ss) = arrivals ss
arrivals (waits w ∷ ss) = arrivals ss
arrivals (expires w ∷ ss) = arrivals ss
arrivals (pops c live ∷ ss) = arrivals ss
arrivals (delivers w c ∷ ss) = arrivals ss
arrivals (closes ∷ ss) = arrivals ss

-- How often a connection arrives in a step.
unfoldable pub arrives : ℕ → PoolStep → ℕ
arrives c (parks d) = occurs c (d ∷ [])
arrives c (watch_returns d) = 0
arrives c (waits w) = 0
arrives c (expires w) = 0
arrives c (pops d live) = 0
arrives c (delivers w d) = 0
arrives c closes = 0

unfoldable pub arrived : ℕ → List PoolStep → ℕ
arrived c [] = 0
arrived c (t ∷ ts) = arrives c t + arrived c ts

occurs-sending :
    (c : ℕ) (x : Sending) (xs : List Sending)
    → contains x xs ≡ true
    → occurs c (map (λ y. y.conn) xs)
      ≡ occurs c (x.conn ∷ []) + occurs c (map (λ y. y.conn) (remove x xs))
unfolding occurs contains remove
occurs-sending c x [] h = ground arith
occurs-sending c x (y ∷ ys) h = ground (arith, sending_beq_iff y x, occurs-sending c x ys)

park_open-held :
    (c d : ℕ) (ws : List ℕ) (p : DialPool)
    → held c (park_open d ws p) ≡ occurs c (d ∷ []) + held c p
unfolding park_open occurs
park_open-held c d [] p = ground arith
park_open-held c d (w ∷ ws) p = ground arith

step-held : (c : ℕ) (t : PoolStep) (p : DialPool) → held c (pool_step t p) ≡ arrives c t + held c p
unfolding pool_step arrives
step-held c (parks d) p = unfold park occurs in ground (arith, park_open-held c d p.waiters p)
step-held c (watch_returns d) p =
    unfold watch_ends occurs in ground (arith, occurs-remove c d p.conns)
step-held c (waits w) p = unfold pop_waits in ground arith
step-held c (expires w) p = unfold pop_expires in ground arith
step-held c (pops d live) p = unfold pop_round occurs in ground (arith, occurs-remove c d p.conns)
step-held c (delivers w d) p =
    unfold deliver occurs in
    ground (arith, occurs-sending c (record { to = w; conn = d }) p.sending)
step-held c closes p = unfold close occurs in ground (arith, occurs-append c p.conns p.shut)

run-held :
    (c : ℕ) (ts : List PoolStep) (p : DialPool) → held c (pool_run ts p) ≡ arrived c ts + held c p
unfolding pool_run arrived
run-held c [] p = ground arith
run-held c (t ∷ ts) p = ground (arith, step-held c t p, run-held c ts (pool_step t p))

park_open-sound :
    (c : ℕ) (ws : List ℕ) (p : DialPool)
    → ws ≡ p.waiters
    → sound p ≡ true
    → p.closed ≡ false
    → leb pool_cap (length p.conns) ≡ false
    → sound (park_open c ws p) ≡ true
unfolding park_open
park_open-sound c [] p e s o room = ground arith
park_open-sound c (w ∷ ws) p e s o room = ground arith

step-sound : (t : PoolStep) (p : DialPool) → sound p ≡ true → sound (pool_step t p) ≡ true
unfolding pool_step
step-sound (parks c) p s = unfold park in ground (arith, park_open-sound c p.waiters p refl s)
step-sound (watch_returns c) p s = unfold watch_ends in ground (arith, length-remove c p.conns)
step-sound (waits w) p s = unfold pop_waits in ground arith
step-sound (expires w) p s = unfold pop_expires in ground (arith, length-remove-le w p.waiters)
step-sound (pops c live) p s = unfold pop_round in ground (arith, length-remove c p.conns)
step-sound (delivers w c) p s = unfold deliver in ground arith
step-sound closes p s = unfold close in ground arith

run-sound : (ts : List PoolStep) (p : DialPool) → sound p ≡ true → sound (pool_run ts p) ≡ true
unfolding pool_run
run-sound [] p s = s
run-sound (t ∷ ts) p s = run-sound ts (pool_step t p) (step-sound t p s)

pub arrivals-cons :
    (t : PoolStep) (ts : List PoolStep) → arrivals (t ∷ ts) ≡ arrivals (t ∷ []) + arrivals ts
arrivals-cons (parks c) ts = omega arith
arrivals-cons (watch_returns c) ts = omega arith
arrivals-cons (waits w) ts = omega arith
arrivals-cons (expires w) ts = omega arith
arrivals-cons (pops c live) ts = omega arith
arrivals-cons (delivers w c) ts = omega arith
arrivals-cons closes ts = omega arith

-- Whatever the order of arrivals, deaths, pops, sends, timeouts and a close: at most 32 connections
-- are parked, none while a pop waits and none once the pool is closed; and each connection, as often
-- as it arrived, is parked, on its way to a pop, handed to one, closed, or lost in the channel of one
-- that had timed out.
pub run-new_dial_pool :
    (ts : List PoolStep)
    → (sound (pool_run ts new_dial_pool) ≡ true)
      × ((c : ℕ) → held c (pool_run ts new_dial_pool) ≡ arrived c ts)
run-new_dial_pool ts = (
  run-sound ts new_dial_pool refl,
  λ c. unfold occurs in ground (arith, run-held c ts new_dial_pool),
)
