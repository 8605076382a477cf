-- ===== src/Snapshots/Ages.antt =====
-- applySnapshots over a sequence of fetches, seen at one path.
use mathlib.Core.Path.{subst, ap₂}
use drawbridge.Base.{
  ℕ, suc, zero, String, ◌≡◌, refl, sym, ◌∙◌, ap, ◌≤◌, ◌+◌, Bool, true, false, not, ◌&&◌, Option,
  none, some, List, [], ◌∷◌, ◌++◌, arith, ltb, if◌then◌else◌, if-both, Bool-cases, inl, inr, map,
}
use drawbridge.Base.Eq.{◌==◌, string_eq}
use drawbridge.Base.Table.{lookup}
use drawbridge.Snapshots.{
  Snapshot, Model, ticks, or_zero, answered, Merge, merged, max_missed_ticks, no_merge, refreshed,
  apply_snapshots, resolve_selection, fallen_back, pinned_to, selecting, shows, first_match,
}
use drawbridge.Snapshots.Merged.{
  count, count-append, count-sort_snaps, answers, count-answered, times, Counts, counts_of,
  merged-counts,
}

-- How many fetches in a row a shown path has missed, of which it is shown once; `none` where it is not.
abbrev pub age_of : ℕ → ℕ → Option ℕ
age_of zero n = none
age_of (suc k) n = some n

unfoldable pub age : String → Model → Option ℕ
age p m = age_of (count p m.snaps) (ticks p m.missed_ticks)

-- One path by itself: an answer makes it current, and after thirty misses in a row the next drops it.
unfoldable pub aged : Bool → Option ℕ → Option ℕ
aged true before = some 0
aged false none = none
aged false (some n) = if ltb n max_missed_ticks then some (n + 1) else none

abbrev Once : Model → Type 0
Once m = (p : String) → count p m.snaps ≤ 1

-- The selection changes neither list.
abbrev SameLists : Model → Model → Type 0
SameLists m n = (n.snaps ≡ m.snaps) × (n.missed_ticks ≡ m.missed_ticks)

fallen_back-SameLists : (m : Model) → SameLists m (fallen_back m)
unfolding fallen_back selecting
fallen_back-SameLists m =
    if-both (SameLists m) (shows m.logs.selected m.snaps) _ _ (refl, refl) (refl, refl)

pinned_to-SameLists : (o : Option Snapshot) (m : Model) → SameLists m (pinned_to o m)
unfolding pinned_to selecting
pinned_to-SameLists none m = fallen_back-SameLists m
pinned_to-SameLists (some s) m = (refl, refl)

resolve_selection-SameLists : (m : Model) → SameLists m (resolve_selection m)
unfolding resolve_selection
resolve_selection-SameLists m =
    if-both (SameLists m) (not m.pinned && not (m.pin_provider == "")) _ _
      (pinned_to-SameLists (first_match m m.snaps) m) (fallen_back-SameLists m)

times-ages :
    (p : String) (c t : ℕ) (answered : Bool)
    → c ≤ 1
    → let (k, l, q) = times p c t (0, (if answered then 1 else 0), none) in
      (age_of (k + l) (or_zero q) ≡ aged answered (age_of c t)) × (k + l ≤ 1)
unfolding times aged
times-ages p zero t true le = (refl, omega arith)
times-ages p zero t false le = (refl, omega arith)
times-ages p (suc zero) t true le = (refl, omega arith)
times-ages p (suc zero) t false le = elim (Bool-cases (ltb max_missed_ticks (t + 1))) [
  | inl q ↦
      let over : ltb t max_missed_ticks ≡ false = ground (arith, q) in
      rw (q, over) (refl, omega arith)
  | inr q ↦
      let under : ltb t max_missed_ticks ≡ true = ground (arith, q) in
      rw (q, under) (refl, omega arith)
]
times-ages p (suc (suc c)) t answered le = absurd (omega arith)

module _ (root : String) (msg : List (Option Snapshot)) (m : Model) (once : Once m)
    (p : String) where
  fetch : Merge
  fetch = merged m.missed_ticks m.snaps (no_merge (answered msg []))

  fetch-counts :
      counts_of p fetch
      ≡ times p
          (count p m.snaps)
          (ticks p m.missed_ticks)
          (0, (if answers p msg then 1 else 0), none)
  unfolding fetch count lookup
  fetch-counts =
      merged-counts p m.missed_ticks m.snaps (no_merge (answered msg []))
      ∙ ap (λ l. times p (count p m.snaps) (ticks p m.missed_ticks) (0, l, none))
          (count-answered p msg [] (omega arith))

  now : SameLists (refreshed root msg m) (apply_snapshots root msg m)
  unfolding apply_snapshots
  now = resolve_selection-SameLists (refreshed root msg m)

  count-refreshed : count p (refreshed root msg m).snaps ≡ count p fetch.kept + count p fetch.left
  unfolding refreshed fetch
  count-refreshed =
      count-sort_snaps p root (fetch.kept ++ fetch.left) ∙ count-append p fetch.kept fetch.left

  count-now : count p (apply_snapshots root msg m).snaps ≡ count p fetch.kept + count p fetch.left
  count-now = ap (count p) now.0 ∙ count-refreshed

  ticks-now : ticks p (apply_snapshots root msg m).missed_ticks ≡ or_zero (lookup p fetch.missed)
  unfolding refreshed fetch ticks
  ticks-now = ap (ticks p) now.1

  -- One fetch, for one path.
  step :
      (age p (apply_snapshots root msg m) ≡ aged (answers p msg) (age p m))
      × (count p (apply_snapshots root msg m).snaps ≤ 1)
  unfolding age
  step =
      let before = count p m.snaps in
      let outcome =
        subst
          (λ (c : Counts p).
            (age_of (c.0 + c.1) (or_zero c.2) ≡ aged (answers p msg) (age p m)) × (c.0 + c.1 ≤ 1))
          (sym fetch-counts)
          (times-ages p before (ticks p m.missed_ticks) (answers p msg) (once p)) in
      (ap₂ age_of count-now ticks-now ∙ outcome.0, omega (arith, count-now, outcome.1))

-- A sequence of fetches.
unfoldable pub refreshes : String → List (List (Option Snapshot)) → Model → Model
refreshes root [] m = m
refreshes root (msg ∷ msgs) m = refreshes root msgs (apply_snapshots root msg m)

unfoldable pub aged_by : List Bool → Option ℕ → Option ℕ
aged_by [] before = before
aged_by (b ∷ bs) before = aged_by bs (aged b before)

refreshes-aged :
    (root p : String) (msgs : List (List (Option Snapshot))) (m : Model)
    → Once m
    → age p (refreshes root msgs m) ≡ aged_by (map (answers p) msgs) (age p m)
unfolding refreshes aged_by
refreshes-aged root p [] m once = refl
refreshes-aged root p (msg ∷ msgs) m once =
    refreshes-aged root p msgs (apply_snapshots root msg m) (λ x. (step root msg m once x).1)
    ∙ ap (aged_by (map (answers p) msgs)) (step root msg m once p).0

refreshes-Once :
    (root : String) (msgs : List (List (Option Snapshot))) (m : Model)
    → Once m
    → Once (refreshes root msgs m)
unfolding refreshes
refreshes-Once root [] m once = once
refreshes-Once root (msg ∷ msgs) m once =
    refreshes-Once root msgs (apply_snapshots root msg m) (λ x. (step root msg m once x).1)

-- From a model that shows nothing, whatever the sockets answer to each fetch, and in whatever order:
-- every path is shown once at most, exactly while it has answered and has not missed more than thirty
-- fetches in a row since, and the count of those that it missed is right; no path has a part in what
-- becomes of another.
pub refreshes-ages :
    (root p : String) (msgs : List (List (Option Snapshot))) (m : Model)
    → m.snaps ≡ []
    → (age p (refreshes root msgs m) ≡ aged_by (map (answers p) msgs) none)
      × (count p (refreshes root msgs m).snaps ≤ 1)
unfolding age count
refreshes-ages root p msgs m empty =
    let once : Once m = λ x. rw empty (omega arith) in
    (
      refreshes-aged root p msgs m once ∙ ap (aged_by (map (answers p) msgs)) (rw empty refl),
      refreshes-Once root msgs m once p,
    )
