-- ===== src/Scroll/Runs.antt =====
-- Runs of scroll.go's regions.
use drawbridge.Base.{◌≡◌, ◌≤◌, ◌<◌, refl, true, false, arith}
use drawbridge.Scroll.{ScrollState, clamp, up, revealed, reveal, window, page_up, press}
use drawbridge.Scroll.Bounds.{Fills, Shows, Meets, reveal-window, press-Meets}

abbrev at_top : ScrollState
at_top = record { offset = 0; follow = false }

abbrev following : ScrollState
following = record { offset = 0; follow = true }

reveal_scrolls_down : window (reveal at_top 12 13 20 5) 20 5 ≡ (9, 14)
unfolding reveal revealed window clamp
reveal_scrolls_down = refl

-- The first key moves from where the region is drawn.
up_from_the_end : window (press page_up 20 5 following) 20 5 ≡ (10, 15)
unfolding press up window clamp
up_from_the_end = refl

reveal-window_example :
    Fills 20 5 (window (reveal at_top 12 13 20 5) 20 5)
    × Shows 12 13 5 (window (reveal at_top 12 13 20 5) 20 5)
    × ((window at_top 20 5).0 ≤ 12
        → 13 < (window at_top 20 5).1
        → window (reveal at_top 12 13 20 5) 20 5 ≡ window at_top 20 5)
reveal-window_example = reveal-window at_top 12 13 20 5 (omega arith) (omega arith) (omega arith)

press-Meets_runs : Meets (window following 20 5) (window (press page_up 20 5 following) 20 5)
press-Meets_runs = press-Meets page_up following 20 5 refl
