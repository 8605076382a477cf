-- ===== src/Ring/Runs.antt =====
-- Runs of the ring at concrete histories.
use drawbridge.Base.{ℕ, zero, suc, ◌+◌, ◌≡◌, refl, List, [], ◌∷◌, some, none}
use drawbridge.Ring.{Refusal, new_ring, record_line, snapshot}
use drawbridge.Ring.Window.{record_all, snapshot-record_all}

abbrev lines : ℕ → ℕ → List Refusal
lines at zero = []
lines at (suc k) = record { at = at; id = "mirror-skip"; line = "" } ∷ lines (at + 1) k

-- A nil ring records nothing.
record_line_nil : snapshot (record_line none 5 "a" "b") ≡ []
unfolding record_line snapshot
record_line_nil = refl

-- After 40 lines the oldest 8 are gone.
snapshot-record_all_example : snapshot (record_all (some new_ring) (lines 0 40)) ≡ lines 8 32
snapshot-record_all_example = snapshot-record_all (lines 0 40)
