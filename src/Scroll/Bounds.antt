-- ===== src/Scroll/Bounds.antt =====
-- scroll.go: what the window shows.
use drawbridge.Base.{ℕ, ◌≡◌, ◌≤◌, ◌<◌, Bool, true, false, ◌+◌, arith, if◌then◌else◌, ltb}
use drawbridge.Scroll.{
  ScrollState, clamp, up, down, bottom, revealed, reveal, window, Key, line_down, line_up,
  page_down, page_up, to_top, to_bottom, press,
}

abbrev pub least : ℕ → ℕ → ℕ
least a b = if ltb a b then a else b

-- A window lies within the region and is as high as the region and the screen allow.
abbrev pub Fills : ℕ → ℕ → ℕ × ℕ → Type 0
Fills total visible (lo, hi) = (lo + least visible total ≡ hi) × (hi ≤ total)

pub window-Fills :
    (s : ScrollState) (total visible : ℕ) → Fills total visible (window s total visible)
unfolding window clamp
window-Fills s total visible = ground arith

-- A block is shown whole, or from its first line where it is higher than the screen.
abbrev pub Shows : ℕ → ℕ → ℕ → ℕ × ℕ → Type 0
Shows first last visible (lo, hi) =
    (lo ≤ first) × (first < hi) × (last < first + visible → last < hi)

pub reveal-Shows :
    (s : ScrollState) (first last total visible : ℕ)
    → first ≤ last
    → last < total
    → 1 ≤ visible
    → Shows first last visible (window (reveal s first last total visible) total visible)
unfolding reveal revealed window clamp
reveal-Shows s first last total visible p q r = ground arith

-- The least movement: what is in sight already does not move.
reveal-still :
    (s : ScrollState) (first last total visible : ℕ)
    → (window s total visible).0 ≤ first
    → last < (window s total visible).1
    → window (reveal s first last total visible) total visible ≡ window s total visible
unfolding reveal revealed window clamp
reveal-still s first last total visible p q = ground arith

-- The cursor's block, first ≤ last < total, and at least one row of screen: after `reveal` the
-- window lies within the region and fills the screen as far as the region does, shows the block
-- whole if it fits and from its first line if not, and does not move if it was all in sight.
pub reveal-window :
    (s : ScrollState) (first last total visible : ℕ)
    → first ≤ last
    → last < total
    → 1 ≤ visible
    → let w = window (reveal s first last total visible) total visible in
      Fills total visible w
      × Shows first last visible w
      × ((window s total visible).0 ≤ first
          → last < (window s total visible).1
          → w ≡ window s total visible)
reveal-window s first last total visible p q r = (
  window-Fills (reveal s first last total visible) total visible,
  reveal-Shows s first last total visible p q r,
  reveal-still s first last total visible,
)

-- No line between the two windows is skipped.
abbrev pub Meets : ℕ × ℕ → ℕ × ℕ → Type 0
Meets (lo, hi) (lo', hi') = (lo' ≤ hi) × (lo ≤ hi')

abbrev pub is_jump : Key → Bool
is_jump to_top = true
is_jump to_bottom = true
is_jump k = false

down-Meets :
    (s : ScrollState) (n total visible : ℕ)
    → (1 ≤ visible → n ≤ visible)
    → Meets (window s total visible) (window (down s n total visible) total visible)
unfolding down window clamp
down-Meets s n total visible h = ground arith

up-Meets :
    (s : ScrollState) (n total visible : ℕ)
    → (1 ≤ visible → n ≤ visible)
    → Meets (window s total visible) (window (up s n total visible) total visible)
unfolding up window clamp
up-Meets s n total visible h = ground arith

-- A key that scrolls by a line or a page skips no line: the window after it overlaps the one before,
-- or begins or ends where that one ends or begins.
pub press-Meets :
    (k : Key) (s : ScrollState) (total visible : ℕ)
    → is_jump k ≡ false
    → Meets (window s total visible) (window (press k total visible s) total visible)
unfolding press
press-Meets line_down s total visible h = down-Meets s 1 total visible (λ le. le)
press-Meets line_up s total visible h = up-Meets s 1 total visible (λ le. le)
press-Meets page_down s total visible h = down-Meets s visible total visible (λ le. omega arith)
press-Meets page_up s total visible h = up-Meets s visible total visible (λ le. omega arith)
press-Meets to_top s total visible h = ground arith
press-Meets to_bottom s total visible h = ground arith

-- Growth of a region that follows its end keeps the end in sight.
pub bottom-follows :
    (s : ScrollState) (total visible grown visible' : ℕ)
    → (window (bottom s total visible) grown visible').1 ≡ (if ltb visible' 1 then 0 else grown)
unfolding bottom window clamp
bottom-follows s total visible grown visible' = ground arith
