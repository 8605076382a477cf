-- ===== src/Snapshots.antt =====
-- internal/tui/model.go's applySnapshots: what the terminal interface makes of one fetch of the
-- daemons' sockets. It keeps RefusalLog's logs.
use drawbridge.Base.{
  ℕ, String, Bool, true, false, not, ◌&&◌, ◌||◌, Option, none, some, List, [], ◌∷◌, ◌++◌, ◌+◌, ltb,
  eqb, any, if◌then◌else◌,
}
use drawbridge.Base.Eq.{◌==◌, string_eq}
use drawbridge.Base.Bytes.{bytes}
use drawbridge.Base.Table.{lookup, insert}
use drawbridge.Ring.{Refusal}
use drawbridge.RefusalLog.{LogModel, log_of, accumulate, mark_refusals_seen, prune_seen}
pub mod Merged
pub mod Ages
pub mod Selection
pub mod Runs

abbrev pub max_missed_ticks : ℕ
max_missed_ticks = 30

-- A daemon's answer: its socket's path, whether this build can read it, its virtual machine and its
-- ring of refusals.
pub record Snapshot : Type 0 where
  pub path : String
  pub usable : Bool
  pub provider : String
  pub instance_name : String
  pub reference : String
  pub recent_refusals : List Refusal

-- `logs` has the logs, the watermarks, the selected path and whether the pane is open.
pub record Model : Type 0 where
  pub snaps : List Snapshot
  pub skewed : List Snapshot
  pub missed_ticks : List (String × ℕ)
  pub logs : LogModel
  pub pinned : Bool
  pub pin_provider : String
  pub pin_instance : String
  pub pin_spec : String

-- A map from paths to snapshots is a list of those that it holds, each under its own path.
unfoldable pub find : String → List Snapshot → Option Snapshot
find path [] = none
find path (s ∷ ss) = if s.path == path then some s else find path ss

unfoldable pub without : String → List Snapshot → List Snapshot
without path [] = []
without path (s ∷ ss) = let rest = without path ss in if s.path == path then rest else s ∷ rest

abbrev pub or_zero : Option ℕ → ℕ
or_zero none = 0
or_zero (some n) = n

unfoldable pub ticks : String → List (String × ℕ) → ℕ
ticks path missed = or_zero (lookup path missed)

-- The loop over the answers; `none` is a nil pointer.
unfoldable pub answered : List (Option Snapshot) → List Snapshot → List Snapshot
answered [] fresh = fresh
answered (none ∷ msg) fresh = answered msg fresh
answered (some s ∷ msg) fresh = answered msg (if s.usable then s ∷ without s.path fresh else fresh)

unfoldable pub skewed_of : List (Option Snapshot) → List Snapshot
skewed_of [] = []
skewed_of (none ∷ msg) = skewed_of msg
skewed_of (some s ∷ msg) = let rest = skewed_of msg in if s.usable then rest else s ∷ rest

-- The variables of the loop over the last snapshots: `fresh`, `missed` and `kept`.
pub record Merge : Type 0 where
  pub left : List Snapshot
  pub missed : List (String × ℕ)
  pub kept : List Snapshot

-- A path that did not answer is kept as it was, for a while.
unfoldable pub placed : ℕ → Snapshot → Option Snapshot → Merge → Merge
placed n s (some f) a = record a { kept = a.kept ++ f ∷ []; left = without s.path a.left }
placed n s none a =
    if ltb max_missed_ticks (n + 1)
    then a
    else record a { missed = insert s.path (n + 1) a.missed; kept = a.kept ++ s ∷ [] }

unfoldable pub merged : List (String × ℕ) → List Snapshot → Merge → Merge
merged old [] a = a
merged old (s ∷ ss) a = merged old ss (placed (ticks s.path old) s (find s.path a.left) a)

unfoldable pub bytes_less : List ℕ → List ℕ → Bool
bytes_less xs [] = false
bytes_less [] (y ∷ ys) = true
bytes_less (x ∷ xs) (y ∷ ys) = ltb x y || eqb x y && bytes_less xs ys

-- The root's socket first, then by path.
unfoldable pub path_less : String → String → String → Bool
path_less root a b =
    if a == root
    then not (b == root)
    else if b == root
    then false
    else bytes_less (bytes a) (bytes b)

unfoldable pub placed_in : String → Snapshot → List Snapshot → List Snapshot
placed_in root s [] = s ∷ []
placed_in root s (t ∷ ts) =
    let rest = placed_in root s ts in if path_less root t.path s.path then t ∷ rest else s ∷ t ∷ ts

-- sort.SliceStable: an insertion from the end, before those that are not less.
unfoldable pub sort_snaps : String → List Snapshot → List Snapshot
sort_snaps root [] = []
sort_snaps root (s ∷ ss) = placed_in root s (sort_snaps root ss)

-- out[path] = log, where the log is not empty.
unfoldable pub with_log :
    String → List Refusal → List (String × List Refusal) → List (String × List Refusal)
with_log path [] out = out
with_log path (r ∷ log) out = insert path (r ∷ log) out

abbrev pub or_no_log : Option (List Refusal) → List Refusal
or_no_log none = []
or_no_log (some log) = log

unfoldable pub log_in : String → List (String × List Refusal) → List Refusal
log_in path logs = or_no_log (lookup path logs)

unfoldable pub kept_logs :
    List (String × List Refusal)
    → List Snapshot
    → List (String × List Refusal)
    → List (String × List Refusal)
kept_logs old [] out = out
kept_logs old (s ∷ ss) out = kept_logs old ss (with_log s.path (log_in s.path old) out)

unfoldable pub fetched_logs :
    List (Option Snapshot) → List (String × List Refusal) → List (String × List Refusal)
fetched_logs [] out = out
fetched_logs (none ∷ msg) out = fetched_logs msg out
fetched_logs (some s ∷ msg) out = fetched_logs msg (
    if s.usable
    then with_log s.path (accumulate (log_in s.path out) s.recent_refusals) out
    else out)

unfoldable pub merge_refusals :
    List Snapshot
    → List (Option Snapshot)
    → List (String × List Refusal)
    → List (String × List Refusal)
merge_refusals kept msg old = fetched_logs msg (kept_logs old kept [])

unfoldable pub matches_vm : Model → Snapshot → Bool
matches_vm m s =
    if not (s.provider == "") && not (s.instance_name == "")
    then s.provider == m.pin_provider && s.instance_name == m.pin_instance
    else s.reference == m.pin_spec

unfoldable pub first_match : Model → List Snapshot → Option Snapshot
first_match m [] = none
first_match m (s ∷ ss) = let rest = first_match m ss in if matches_vm m s then some s else rest

unfoldable pub selecting : String → Model → Model
selecting path m = record m { logs = record m.logs { selected = path } }

abbrev pub first_path : List Snapshot → String
first_path [] = ""
first_path (s ∷ ss) = s.path

unfoldable pub shows : String → List Snapshot → Bool
shows path snaps = any (λ s. s.path == path) snaps

unfoldable pub fallen_back : Model → Model
fallen_back m = if shows m.logs.selected m.snaps then m else selecting (first_path m.snaps) m

unfoldable pub pinned_to : Option Snapshot → Model → Model
pinned_to none m = fallen_back m
pinned_to (some s) m = record (selecting s.path m) { pinned = true }

unfoldable pub resolve_selection : Model → Model
resolve_selection m =
    if not m.pinned && not (m.pin_provider == "")
    then pinned_to (first_match m m.snaps) m
    else fallen_back m

abbrev pub no_merge : List Snapshot → Merge
no_merge fresh = record { left = fresh; missed = []; kept = [] }

-- What is left of `fresh` is sorted at once, so its order in a `range` has no part. The clock, the problems and the
-- pulses are rendered and nothing here reads them.
unfoldable pub refreshed : String → List (Option Snapshot) → Model → Model
refreshed root msg m =
    let a = merged m.missed_ticks m.snaps (no_merge (answered msg [])) in
    let kept = sort_snaps root (a.kept ++ a.left) in
    record m {
      snaps = kept;
      skewed = skewed_of msg;
      missed_ticks = a.missed;
      logs = prune_seen (record m.logs { refusals = merge_refusals kept msg m.logs.refusals });
    }

unfoldable pub apply_snapshots : String → List (Option Snapshot) → Model → Model
apply_snapshots root msg m =
    let chosen = resolve_selection (refreshed root msg m) in
    record chosen { logs = mark_refusals_seen chosen.logs }
