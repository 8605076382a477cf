-- ===== src/DialPool.antt =====
-- internal/agent/dialpool.go: the parked reverse-stream connections of the agent. Connections and
-- waiting pops are known by numbers.
pub mod Account
pub mod Pops
pub mod Runs
use drawbridge.Base.{
  ℕ, zero, suc, ◌≡◌, ◌↔◌, arith, Bool, true, false, not, ◌&&◌, ◌||◌, Option, none, some, List, [],
  ◌∷◌, ◌++◌, eqb, leb, if◌then◌else◌, length,
}
use drawbridge.Base.Sets.{remove}
use drawbridge.Base.Eq.{Comparable, ◌==◌, nat_eq, contains}

abbrev pub pool_cap : ℕ
pool_cap = 32

-- A connection on its way to a pop's channel: park has taken the pop off the list and unlocked.
pub record Sending : Type 0 where
  pub to : ℕ
  pub conn : ℕ

abbrev pub sending_beq : Sending → Sending → Bool
sending_beq a b = eqb a.to b.to && eqb a.conn b.conn

pub sending_beq_iff : (a b : Sending) → (sending_beq a b ≡ true) ↔ (a ≡ b)
sending_beq_iff a b = ground arith

instance abbrev pub sending_eq : Comparable Sending
sending_eq = record { equal = sending_beq; equal_iff = sending_beq_iff }

-- `waiters` are the pops that wait for a connection, the first first, and `gone` those that have
-- returned with their timeout. `handed`, `lost` and `shut` keep what became of the connections: given
-- to a pop, sent to the channel of one that was gone, or closed.
pub record DialPool : Type 0 where
  pub conns : List ℕ
  pub waiters : List ℕ
  pub closed : Bool
  pub sending : List Sending
  pub gone : List ℕ
  pub handed : List ℕ
  pub lost : List ℕ
  pub shut : List ℕ

abbrev pub new_dial_pool : DialPool
new_dial_pool = record {
  conns = [];
  waiters = [];
  closed = false;
  sending = [];
  gone = [];
  handed = [];
  lost = [];
  shut = [];
}

-- park under its lock, once the pool is open and has room: the connection is for the pop that waits
-- longest, if one does.
unfoldable pub park_open : ℕ → List ℕ → DialPool → DialPool
park_open c [] p = record p { conns = c ∷ p.conns }
park_open c (w ∷ ws) p = record p {
  waiters = ws;
  sending = record { to = w; conn = c } ∷ p.sending;
}

unfoldable pub park : ℕ → DialPool → DialPool
park c p =
    if p.closed || leb pool_cap (length p.conns)
    then record p { shut = c ∷ p.shut }
    else park_open c p.waiters p

-- watch, when its read of a connection returns: one that is still parked is dropped and closed; one
-- that was popped is the pop's.
unfoldable pub watch_ends : ℕ → DialPool → DialPool
watch_ends c p =
    if contains c p.conns then record p { conns = remove c p.conns; shut = c ∷ p.shut } else p

-- One round of pop on a connection that the map's range yields: `live` is what the watchdog and the
-- probe say of it.
unfoldable pub pop_round : ℕ → Bool → DialPool → DialPool
pop_round c live p =
    if p.closed || not (contains c p.conns)
    then p
    else if live
    then record p { conns = remove c p.conns; handed = c ∷ p.handed }
    else record p { conns = remove c p.conns; shut = c ∷ p.shut }

-- A pop that finds none parked waits.
unfoldable pub pop_waits : ℕ → DialPool → DialPool
pop_waits w p =
    if p.closed || not (eqb (length p.conns) 0)
    then p
    else record p { waiters = p.waiters ++ w ∷ [] }

-- w <- c, after the unlock: the pop receives it, in its select or in the one after its timeout, if
-- it has not returned. Otherwise it stays in the channel, which nobody reads.
unfoldable pub deliver : ℕ → ℕ → DialPool → DialPool
deliver w c p =
    let x : Sending = record { to = w; conn = c } in
    let rest = remove x p.sending in
    if not (contains x p.sending)
    then p
    else if contains w p.gone
    then record p { sending = rest; lost = c ∷ p.lost }
    else record p { sending = rest; handed = c ∷ p.handed }

-- A pop's timeout with nothing in its channel: it is off the list and returns.
unfoldable pub pop_expires : ℕ → DialPool → DialPool
pop_expires w p = record p { waiters = remove w p.waiters; gone = w ∷ p.gone }

unfoldable pub close : DialPool → DialPool
close p = record p { closed = true; conns = []; shut = p.conns ++ p.shut }

pub data PoolStep : Type 0 where
  parks watch_returns waits expires : ℕ → PoolStep
  pops : ℕ → Bool → PoolStep
  delivers : ℕ → ℕ → PoolStep
  closes : PoolStep

unfoldable pub pool_step : PoolStep → DialPool → DialPool
pool_step (parks c) p = park c p
pool_step (watch_returns c) p = watch_ends c p
pool_step (waits w) p = pop_waits w p
pool_step (expires w) p = pop_expires w p
pool_step (pops c live) p = pop_round c live p
pool_step (delivers w c) p = deliver w c p
pool_step closes p = close p

unfoldable pub pool_run : List PoolStep → DialPool → DialPool
pool_run [] p = p
pool_run (s ∷ ss) p = pool_run ss (pool_step s p)

-- What a whole pop comes to: a connection, an error, or a wait among `waiters`; `pop_again` stands
-- for a loop that has had no round to end in.
pub data Popped : Type 0 where
  popped : ℕ → Popped
  pool_closed pop_parked pop_again : Popped

-- A round of the loop: which of the parked connections the range yields, what its watchdog and the
-- probe say of it, and what the other goroutines do before the next round.
pub record PopRound : Type 0 where
  pub choice : ℕ
  pub live : Bool
  pub meanwhile : List PoolStep

unfoldable pub yielded : ℕ → ℕ → List ℕ → ℕ
yielded _ c [] = c
yielded zero c (_ ∷ _) = c
yielded (suc i) _ (d ∷ cs) = yielded i d cs

-- One round of pop for the caller `w`.
unfoldable pub pop_first : ℕ → PopRound → List ℕ → DialPool → (Popped × DialPool)
pop_first w r [] p = (pop_parked, pop_waits w p)
pop_first w r (c ∷ cs) p =
    let d = yielded r.choice c cs in
    if r.live then (popped d, pop_round d true p) else (pop_again, pop_round d false p)

unfoldable pub pop_try : ℕ → PopRound → DialPool → (Popped × DialPool)
pop_try w r p = if p.closed then (pool_closed, p) else pop_first w r p.conns p

abbrev pub retries : Popped → Bool
retries (popped _) = false
retries pool_closed = false
retries pop_parked = false
retries pop_again = true

-- pop, over the rounds that it has.
unfoldable pub pop : ℕ → List PopRound → DialPool → (Popped × DialPool)
pop w [] p = (pop_again, p)
pop w (r ∷ rs) p =
    let now = pop_try w r p in
    let rest = pop w rs (pool_run r.meanwhile now.1) in if retries now.0 then rest else now
