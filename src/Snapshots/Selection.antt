-- ===== src/Snapshots/Selection.antt =====
-- model.go's resolveSelection, after a fetch.
use drawbridge.Base.{
  String, ◌≡◌, refl, ◌∙◌, ap, ◌⊎◌, inl, inr, Bool, true, false, not, ◌&&◌, Option, none, some, List,
  [], ◌∷◌, arith, if-both, Bool-cases,
}
use drawbridge.Base.Eq.{◌==◌, string_eq}
use drawbridge.Ring.{Refusal}
use drawbridge.RefusalLog.{LogModel, log_of, marked, mark_refusals_seen, prune_seen}
use drawbridge.Snapshots.{
  Snapshot, Model, refreshed, apply_snapshots, resolve_selection, fallen_back, pinned_to, selecting,
  shows, first_match, first_path, matches_vm,
}

marked-selected : (log : List Refusal) (m : LogModel) → (marked log m).selected ≡ m.selected
unfolding marked
marked-selected [] m = refl
marked-selected (r ∷ rs) m = ground arith

mark-selected : (m : LogModel) → (mark_refusals_seen m).selected ≡ m.selected
unfolding mark_refusals_seen
mark-selected m = marked-selected (log_of m.selected m) m

-- The selected path is one of those shown; or none is shown, and the selection is empty.
abbrev pub IsSettled : Model → Type 0
IsSettled m = (shows m.logs.selected m.snaps ≡ true) ⊎ ((m.snaps ≡ []) × (m.logs.selected ≡ ""))

shows-first :
    (ss : List Snapshot) → (shows (first_path ss) ss ≡ true) ⊎ ((ss ≡ []) × (first_path ss ≡ ""))
unfolding shows
shows-first [] = inr (refl, refl)
shows-first (s ∷ ss) = inl (ground (arith, string_eq.equal_iff s.path s.path))

fallen_back-IsSettled : (m : Model) → IsSettled (fallen_back m)
unfolding fallen_back selecting
fallen_back-IsSettled m = elim (Bool-cases (shows m.logs.selected m.snaps)) [
  | inl q ↦ rw q (inl q)
  | inr q ↦ rw q (shows-first m.snaps)
]

path_or : Option Snapshot → String
path_or none = ""
path_or (some s) = s.path

shows-first_match :
    (m : Model) (ss : List Snapshot) (s : Snapshot)
    → first_match m ss ≡ some s
    → shows s.path ss ≡ true
unfolding first_match shows path_or
shows-first_match m [] s e = absurd (ground (arith, e))
shows-first_match m (t ∷ ts) s e = elim (Bool-cases (matches_vm m t)) [
  | inl q ↦
      let same : t.path ≡ s.path = ap (λ o. path_or o) (rw q at e) in
      rw ((string_eq.equal_iff t.path s.path).1 same) refl
  | inr q ↦ ground (arith, shows-first_match m ts s (rw q at e))
]

pinned_to-IsSettled :
    (m : Model) (o : Option Snapshot) → first_match m m.snaps ≡ o → IsSettled (pinned_to o m)
unfolding pinned_to selecting
pinned_to-IsSettled m none e = fallen_back-IsSettled m
pinned_to-IsSettled m (some s) e = inl (shows-first_match m m.snaps s e)

resolve-IsSettled : (m : Model) → IsSettled (resolve_selection m)
unfolding resolve_selection
resolve-IsSettled m =
    if-both IsSettled (not m.pinned && not (m.pin_provider == "")) _ _
      (pinned_to-IsSettled m (first_match m m.snaps) refl) (fallen_back-IsSettled m)

marked-IsSettled :
    (m : Model) → IsSettled m → IsSettled (record m { logs = mark_refusals_seen m.logs })
marked-IsSettled m h = rw (mark-selected m.logs) h

-- The `-vm` flag still has to choose the first view.
abbrev pub seeks_pin : Model → Bool
seeks_pin m = not m.pinned && not (m.pin_provider == "")

resolve-keeps :
    (m : Model)
    → seeks_pin m ≡ false
    → shows m.logs.selected m.snaps ≡ true
    → (resolve_selection m).logs.selected ≡ m.logs.selected
unfolding resolve_selection fallen_back
resolve-keeps m free shown = rw (free, shown) refl

unchanged :
    (root : String) (msg : List (Option Snapshot)) (m : Model)
    → seeks_pin m ≡ false
    → shows m.logs.selected (refreshed root msg m).snaps ≡ true
    → (resolve_selection (refreshed root msg m)).logs.selected ≡ m.logs.selected
unfolding refreshed prune_seen
unchanged root msg m free shown = resolve-keeps (refreshed root msg m) free shown

-- After every fetch the selected path is one of those shown, or none is shown and none is selected.
-- Unless the `-vm` flag still seeks its daemon, a path that is selected stays so as long as it is
-- shown, whatever other sockets come and go.
pub apply_snapshots-selected :
    (root : String) (msg : List (Option Snapshot)) (m : Model)
    → IsSettled (apply_snapshots root msg m)
      × (seeks_pin m ≡ false
          → shows m.logs.selected (refreshed root msg m).snaps ≡ true
          → (apply_snapshots root msg m).logs.selected ≡ m.logs.selected)
unfolding apply_snapshots
apply_snapshots-selected root msg m = (
  marked-IsSettled (resolve_selection (refreshed root msg m))
      (resolve-IsSettled (refreshed root msg m)),
  λ free shown.
      mark-selected (resolve_selection (refreshed root msg m)).logs
      ∙ unchanged root msg m free shown,
)
