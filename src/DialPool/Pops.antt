-- ===== src/DialPool/Pops.antt =====
-- internal/agent/dialpool.go: the loop of pop, to its end.
use drawbridge.Base.{
  ℕ, zero, suc, ◌+◌, ◌<◌, ◌≤◌, ◌≡◌, refl, sym, ap, ◌∙◌, Bool, true, false, Bool-cases, inl, inr,
  List, [], ◌∷◌, ◌++◌, length, arith, if◌then◌else◌,
}
use drawbridge.Base.Sets.{length-remove, length-remove-le}
use drawbridge.Base.Eq.{nat_eq, contains}
use drawbridge.DialPool.{
  DialPool, PoolStep, parks, watch_returns, waits, expires, pops, delivers, deliver, closes, park,
  park_open, watch_ends, pop_round, pop_waits, pop_expires, close, pool_step, pool_run, Popped,
  popped, pool_closed, pop_parked, pop_again, PopRound, yielded, pop_first, pop_try, retries, pop,
}
use drawbridge.DialPool.Account.{arrivals, arrivals-cons}

-- What the pool owes to each way in which a pop of `w` ends; no way is to have had no round left.
unfoldable pub Ended : ℕ → Popped → DialPool → Type 0
Ended w (popped c) p = contains c p.handed ≡ true
Ended w pool_closed p = p.closed ≡ true
Ended w pop_parked p = (length p.conns ≡ 0) × (contains w p.waiters ≡ true)
Ended w pop_again p = ⊥

-- The connections that the other goroutines park between the rounds.
abbrev pub arrivals_in : List PopRound → ℕ
arrivals_in [] = 0
arrivals_in (r ∷ rs) = arrivals r.meanwhile + arrivals_in rs

yielded-contains : (i c : ℕ) (cs : List ℕ) → contains (yielded i c cs) (c ∷ cs) ≡ true
unfolding yielded contains
yielded-contains i c [] = ground arith
yielded-contains zero c (d ∷ ds) = ground arith
yielded-contains (suc i) c (d ∷ ds) = ground (arith, yielded-contains i d ds)

contains-end : (w : ℕ) (ws : List ℕ) → contains w (ws ++ w ∷ []) ≡ true
unfolding contains
contains-end w [] = ground arith
contains-end w (x ∷ xs) = ground (arith, contains-end w xs)

park_open-conns :
    (c : ℕ) (ws : List ℕ) (p : DialPool) → length (park_open c ws p).conns ≤ suc (length p.conns)
unfolding park_open
park_open-conns c [] p = ground arith
park_open-conns c (w ∷ ws) p = ground arith

step-conns :
    (t : PoolStep) (p : DialPool)
    → length (pool_step t p).conns ≤ arrivals (t ∷ []) + length p.conns
unfolding pool_step
step-conns (parks c) p = unfold park in ground (arith, park_open-conns c p.waiters p)
step-conns (watch_returns c) p = unfold watch_ends in ground (arith, length-remove-le c p.conns)
step-conns (waits w) p = unfold pop_waits in ground arith
step-conns (expires w) p = unfold pop_expires in ground arith
step-conns (pops c live) p = unfold pop_round in ground (arith, length-remove-le c p.conns)
step-conns (delivers w c) p = unfold deliver in ground arith
step-conns closes p = unfold close in ground arith

run-conns :
    (ts : List PoolStep) (p : DialPool)
    → length (pool_run ts p).conns ≤ arrivals ts + length p.conns
unfolding pool_run
run-conns [] p = ground arith
run-conns (t ∷ ts) p =
    ground (arith, step-conns t p, run-conns ts (pool_step t p), arrivals-cons t ts)

-- A round that does not end the loop has taken a connection off the pool.
Progress : ℕ → DialPool → Popped × DialPool → Type 0
Progress w p now =
    if retries now.0 then suc (length now.1.conns) ≡ length p.conns else Ended w now.0 now.1

pop_first-Progress :
    (w : ℕ) (r : PopRound) (cs : List ℕ) (p : DialPool)
    → cs ≡ p.conns
    → p.closed ≡ false
    → Progress w p (pop_first w r cs p)
unfolding pop_first Progress Ended
pop_first-Progress w r [] p e o =
    unfold pop_waits in
    let none_parked : length p.conns ≡ 0 = sym (ap length e) in
    rw (o, none_parked) (none_parked, contains-end w p.waiters)
pop_first-Progress w r (c ∷ cs) p e o =
    unfold pop_round in
    let d = yielded r.choice c cs in
    let here : contains d p.conns ≡ true =
      ap (contains d) (sym e) ∙ yielded-contains r.choice c cs in
    elim (Bool-cases r.live) [
      | inl live ↦ rw (live, o, here) (unfold contains in ground arith)
      | inr dead ↦ rw (dead, o, here) (length-remove d p.conns here)
    ]

open_or_closed-Progress :
    (b : Bool) (w : ℕ) (r : PopRound) (p : DialPool)
    → p.closed ≡ b
    → Progress w p (if b then (pool_closed, p) else pop_first w r p.conns p)
unfolding Progress Ended
open_or_closed-Progress true w r p e = e
open_or_closed-Progress false w r p e = pop_first-Progress w r p.conns p refl e

pop_try-Progress : (w : ℕ) (r : PopRound) (p : DialPool) → Progress w p (pop_try w r p)
unfolding pop_try
pop_try-Progress w r p = open_or_closed-Progress p.closed w r p refl

-- Whatever the other goroutines do between its rounds, the loop of pop ends within one round more
-- than the connections that are parked at its start and those that come in the meantime: with a
-- connection that the pool has handed over, with an error of a closed pool, or waiting at a pool
-- that has none parked.
pub pop-Ended :
    (w : ℕ) (rs : List PopRound) (p : DialPool)
    → length p.conns + arrivals_in rs < length rs
    → Ended w (pop w rs p).0 (pop w rs p).1
unfolding pop Progress
pop-Ended w [] p h = absurd (omega arith)
pop-Ended w (r ∷ rs) p h =
    let now = pop_try w r p in
    let next = pool_run r.meanwhile now.1 in
    let made = pop_try-Progress w r p in
    let parked = run-conns r.meanwhile now.1 in
    elim (Bool-cases (retries now.0)) [
      | inl on ↦
          let shrunk : suc (length now.1.conns) ≡ length p.conns = rw on at made in
          rw on (pop-Ended w rs next (omega arith))
      | inr off ↦ let ended : Ended w now.0 now.1 = rw off at made in rw off ended
    ]
