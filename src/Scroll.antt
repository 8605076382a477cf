-- ===== src/Scroll.antt =====
-- internal/tui/scroll.go: the offset of a region of lines and what it shows. Every caller passes
-- counts and rows that are not negative, so the ints are natural numbers: `offset -= n` with its
-- guard is their subtraction, and the other guards on a negative offset have nothing to do.
use drawbridge.Base.{ℕ, Bool, true, false, ◌||◌, List, [], ◌∷◌, ◌+◌, ◌-◌, if◌then◌else◌, ltb, leb}
pub mod Bounds
pub mod Runs

pub record ScrollState : Type 0 where
  pub offset : ℕ
  pub follow : Bool

abbrev pub max_offset : ℕ → ℕ → ℕ
max_offset total visible = if ltb visible 1 || leb total visible then 0 else total - visible

unfoldable pub clamp : ScrollState → ℕ → ℕ → ScrollState
clamp s total visible =
    let most = max_offset total visible in
    if s.follow
    then record s { offset = most }
    else if ltb most s.offset
    then record s { offset = most }
    else s

unfoldable pub up : ScrollState → ℕ → ℕ → ℕ → ScrollState
up s n total visible = record { offset = (clamp s total visible).offset - n; follow = false }

unfoldable pub down : ScrollState → ℕ → ℕ → ℕ → ScrollState
down s n total visible =
    let at = clamp s total visible in
    let most = max_offset total visible in
    record at { offset = if leb most (at.offset + n) then most else at.offset + n }

unfoldable pub top : ScrollState → ScrollState
top s = record { offset = 0; follow = false }

unfoldable pub bottom : ScrollState → ℕ → ℕ → ScrollState
bottom s total visible = record { offset = max_offset total visible; follow = true }

-- The offset from which the rows `first` to `last` are seen.
unfoldable pub revealed : ℕ → ℕ → ℕ → ℕ → ℕ
revealed first last visible offset =
    let lowered = if leb (offset + visible) last then last + 1 - visible else offset in
    if ltb first lowered then first else lowered

unfoldable pub reveal : ScrollState → ℕ → ℕ → ℕ → ℕ → ScrollState
reveal s first last total visible =
    clamp
      (record {
        offset = revealed first last visible (clamp s total visible).offset;
        follow = false;
      })
      total visible

unfoldable pub window : ScrollState → ℕ → ℕ → ℕ × ℕ
window s total visible =
    if ltb visible 1 || ltb total 1
    then (0, 0)
    else let lo = (clamp s total visible).offset in
      (lo, if ltb total (lo + visible) then total else lo + visible)

-- The keys of model.go's Update that scroll a region; in the mirror table they move a cursor instead.
pub data Key : Type 0 where
  line_down line_up page_down page_up to_top to_bottom : Key

-- A key in a region of `total` lines of which `visible` fit.
unfoldable pub press : Key → ℕ → ℕ → ScrollState → ScrollState
press line_down total visible s = down s 1 total visible
press line_up total visible s = up s 1 total visible
press page_down total visible s = down s visible total visible
press page_up total visible s = up s visible total visible
press to_top total visible s = top s
press to_bottom total visible s = bottom s total visible
