-- ===== src/Snapshots/Runs.antt =====
-- Runs of applySnapshots.
use drawbridge.Base.{String, ◌≡◌, ◌≤◌, refl, true, false, Option, none, some, List, [], ◌∷◌}
use drawbridge.Snapshots.{Snapshot, Model, apply_snapshots, refreshed, shows}
use drawbridge.Snapshots.Merged.{count, answers}
use drawbridge.Snapshots.Ages.{age, aged, aged_by, refreshes, refreshes-ages}
use drawbridge.Snapshots.Selection.{IsSettled, seeks_pin, apply_snapshots-selected}

abbrev daemon : String → Snapshot
daemon path = record {
  path = path;
  usable = true;
  provider = "lima";
  instance_name = "vm";
  reference = "vm";
  recent_refusals = [];
}

abbrev attached : Model
attached = record {
  snaps = [];
  skewed = [];
  missed_ticks = [];
  logs = record { refusals = []; refusals_seen = []; selected = ""; pane_open = false };
  pinned = false;
  pin_provider = "";
  pin_instance = "";
  pin_spec = "";
}

-- The second socket answers once, and the first each time.
abbrev answers_twice : List (List (Option Snapshot))
answers_twice =
    (some (daemon "/a.sock") ∷ some (daemon "/b.sock") ∷ [])
    ∷ (none ∷ some (daemon "/a.sock") ∷ [])
    ∷ []

refreshes-ages_example :
    (age "/b.sock" (refreshes "/root.sock" answers_twice attached) ≡ some 1)
    × (count "/b.sock" (refreshes "/root.sock" answers_twice attached).snaps ≤ 1)
unfolding aged_by aged answers
refreshes-ages_example = refreshes-ages "/root.sock" "/b.sock" answers_twice attached refl

apply_snapshots-selected_runs :
    IsSettled (apply_snapshots "/root.sock" (some (daemon "/a.sock") ∷ []) attached)
    × (seeks_pin attached ≡ false
        → shows attached.logs.selected
            (refreshed "/root.sock" (some (daemon "/a.sock") ∷ []) attached).snaps
          ≡ true
        → (apply_snapshots "/root.sock" (some (daemon "/a.sock") ∷ []) attached).logs.selected
          ≡ attached.logs.selected)
apply_snapshots-selected_runs =
    apply_snapshots-selected "/root.sock" (some (daemon "/a.sock") ∷ []) attached
