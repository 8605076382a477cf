-- ===== src/Ring.antt =====
-- internal/introspect/ring.go: the bounded recorder of refusal lines that `doctor` reads.
-- `r.mu` makes each method one step. `r.n` is a count of lines and is taken as unbounded.
pub mod Window
pub mod Runs
use drawbridge.Base.{
  ℕ, zero, suc, ◌+◌, ◌-◌, ◌%◌, String, List, [], ◌∷◌, Option, none, some, set, get_or, ltb,
  if◌then◌else◌,
}

abbrev pub ring_size : ℕ
ring_size = 32

pub record Refusal : Type 0 where
  pub at : ℕ
  pub id : String
  pub line : String

-- Go's zero value of the struct.
abbrev pub zero_refusal : Refusal
zero_refusal = record { at = 0; id = ""; line = "" }

pub record Ring : Type 0 where
  pub buf : List Refusal
  pub n : ℕ

abbrev replicate : ℕ → Refusal → List Refusal
replicate zero r = []
replicate (suc k) r = r ∷ replicate k r

pub new_ring : Ring
new_ring = record { buf = replicate ring_size zero_refusal; n = 0 }

-- `none` is the nil *Ring, which records nothing. `now` is the clock's answer.
pub record_line : Option Ring → ℕ → String → String → Option Ring
record_line none now id line = none
record_line (some r) now id line = some (record r {
  buf = set r.buf (r.n % ring_size) (record { at = now; id = id; line = line });
  n = r.n + 1;
})

-- for i := start; i < start+rounds; i++ { out = append(out, buf[i%RingSize]) }
pub collect : List Refusal → ℕ → ℕ → List Refusal
collect buf i zero = []
collect buf i (suc rounds) = get_or buf (i % ring_size) zero_refusal ∷ collect buf (i + 1) rounds

pub snapshot : Option Ring → List Refusal
snapshot none = []
snapshot (some r) =
    let n = if ltb ring_size r.n then ring_size else r.n in collect r.buf (r.n - n) n
