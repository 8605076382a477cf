-- ===== src/RefusalLog.antt =====
-- internal/tui/refusals.go: the log of refusals that the terminal interface keeps for a daemon, out
-- of the rings (internal/introspect/ring.go) that it fetches, and the count of those not yet seen.
use drawbridge.Base.{
  ℕ, String, Bool, true, false, not, Option, none, some, List, [], ◌∷◌, ◌++◌, ◌+◌, ◌-◌, map, length,
  drop, ltb, if◌then◌else◌, is_some,
}
use drawbridge.Base.Eq.{◌==◌, contains, string_eq, nat_eq}
use drawbridge.Base.Bytes.{bytes, bytes_eq}
use drawbridge.Base.Numerals.{decimal}
use drawbridge.Base.Table.{lookup, insert}
use drawbridge.Ring.{Refusal}
pub mod Fresh
pub mod Fetched
pub mod Unseen
pub mod Groups
pub mod Runs

abbrev pub refusal_cap : ℕ
refusal_cap = 512

-- The time as nanoseconds, the stable name and the line, each after a NUL.
unfoldable pub refusal_key : Refusal → List ℕ
refusal_key r = decimal r.at ++ (0 ∷ bytes r.id ++ (0 ∷ bytes r.line))

abbrev pub keys_of : List Refusal → List (List ℕ)
keys_of = map refusal_key

-- The loop over the ring: those whose key is not among the `seen` ones, each key once.
unfoldable pub fresh : List (List ℕ) → List Refusal → List Refusal
fresh seen [] = []
fresh seen (r ∷ ring) = elim (contains (refusal_key r) seen) [
  | true ↦ fresh seen ring
  | false ↦ r ∷ fresh (refusal_key r ∷ seen) ring
]

unfoldable pub capped : List Refusal → List Refusal
capped out = if ltb refusal_cap (length out) then drop (length out - refusal_cap) out else out

unfoldable pub extended : List Refusal → List Refusal → List Refusal
extended log [] = log
extended log (r ∷ add) = capped (log ++ (r ∷ add))

unfoldable pub accumulate : List Refusal → List Refusal → List Refusal
accumulate log [] = log
accumulate log (r ∷ ring) = extended log (fresh (keys_of log) (r ∷ ring))

-- How many entries follow the last one with the key.
unfoldable pub newer : List ℕ → List Refusal → Option ℕ
newer mark [] = none
newer mark (r ∷ rs) = elim (newer mark rs) [
  | some n ↦ some n
  | none ↦ if refusal_key r == mark then some (length rs) else none
]

-- The parts of the model that the counter reads, by the daemon's socket path.
pub record LogModel : Type 0 where
  pub refusals : List (String × List Refusal)
  pub refusals_seen : List (String × List ℕ)
  pub selected : String
  pub pane_open : Bool

unfoldable pub log_of : String → LogModel → List Refusal
log_of path m = elim (lookup path m.refusals) [ none ↦ [] | some log ↦ log ]

unfoldable pub unseen_from : List Refusal → Option (List ℕ) → ℕ
unseen_from log none = length log
unseen_from log (some mark) = elim (newer mark log) [ none ↦ length log | some n ↦ n ]

unfoldable pub unseen_refusals : String → LogModel → ℕ
unseen_refusals path m = unseen_from (log_of path m) (lookup path m.refusals_seen)

-- The newest entry of a log that is not empty.
unfoldable pub newest : Refusal → List Refusal → Refusal
newest r [] = r
newest r (x ∷ xs) = newest x xs

unfoldable pub marked : List Refusal → LogModel → LogModel
marked [] m = m
marked (r ∷ rs) m =
    if m.pane_open
    then record m { refusals_seen = insert m.selected (refusal_key (newest r rs)) m.refusals_seen }
    else m

unfoldable pub mark_refusals_seen : LogModel → LogModel
mark_refusals_seen m = marked (log_of m.selected m) m

unfoldable pub pruned :
    List (String × List Refusal) → List (String × List ℕ) → List (String × List ℕ)
pruned logs [] = []
pruned logs ((path, mark) ∷ seen) =
    let others = pruned logs seen in
    if is_some (lookup path logs) then (path, mark) ∷ others else others

unfoldable pub prune_seen : LogModel → LogModel
prune_seen m = record m { refusals_seen = pruned m.refusals m.refusals_seen }
