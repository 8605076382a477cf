-- ===== src/DialPool/Runs.antt =====
-- The pool's theorems at a concrete history, and at a pop that meets a dead connection.
use drawbridge.Base.{ℕ, ◌≡◌, refl, true, false, List, [], ◌∷◌, arith}
use drawbridge.DialPool.{
  DialPool, new_dial_pool, PoolStep, parks, waits, pops, watch_returns, expires, delivers, closes,
  pool_run, popped, PopRound, pop, pop_try, pop_first, pool_step, park, park_open, pop_round,
  yielded,
}
use drawbridge.Base.Sets.{remove}
use drawbridge.Base.Eq.{contains}
use drawbridge.DialPool.Account.{sound, held, arrived, run-new_dial_pool}
use drawbridge.DialPool.Pops.{Ended, pop-Ended}

abbrev history : List PoolStep
history =
    parks 1
    ∷ parks 2
    ∷ pops 2 true
    ∷ watch_returns 1
    ∷ waits 9
    ∷ parks 3
    ∷ expires 9
    ∷ delivers 9 3
    ∷ closes
    ∷ []

-- The third connection was for the pop that timed out.
run-new_dial_pool_example :
    (sound (pool_run history new_dial_pool) ≡ true)
    × ((c : ℕ) → held c (pool_run history new_dial_pool) ≡ arrived c history)
run-new_dial_pool_example = run-new_dial_pool history

abbrev two_parked : DialPool
two_parked = record new_dial_pool { conns = 2 ∷ 1 ∷ [] }

-- The first connection is dead, a third one comes, and the first of the rest is live.
abbrev rounds : List PopRound
rounds =
    record { choice = 1; live = false; meanwhile = parks 3 ∷ [] }
    ∷ record { choice = 0; live = true; meanwhile = [] }
    ∷ record { choice = 0; live = true; meanwhile = [] }
    ∷ record { choice = 0; live = true; meanwhile = [] }
    ∷ []

pop-Ended_example : Ended 9 (pop 9 rounds two_parked).0 (pop 9 rounds two_parked).1
pop-Ended_example = pop-Ended 9 rounds two_parked (omega arith)

pop_gets_live : (pop 9 rounds two_parked).0 ≡ popped 3
unfolding pop pop_try pop_first pool_run pool_step park pop_round contains yielded remove park_open
pop_gets_live = refl
