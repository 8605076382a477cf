-- ===== src/Supervise/Cap.antt =====
-- internal/agent/notifycap.go: the two buckets of supervised descriptors.
use drawbridge.Base.{ℕ, ◌+◌, ◌-◌, Bool, true, false, List, ltb, if◌then◌else◌, any}
use drawbridge.Base.Eq.{nat_eq}
use drawbridge.Base.Sets.{put, remove}

abbrev pub max_supervised : ℕ
max_supervised = 4096

-- `n` and `trusted` are the buckets' counts, `fds` the set of both buckets' descriptors.
pub record Cap : Type 0 where
  pub max : ℕ
  pub n : ℕ
  pub trusted : ℕ
  pub fds : List ℕ

unfoldable pub acquire : Cap → Cap × Bool
acquire c = if ltb c.max (c.n + 1) then (c, false) else (record c { n = c.n + 1 }, true)

-- A slot is released once for each time it was acquired, so the count does not go below 0.
unfoldable pub release : Cap → Cap
release c = record c { n = c.n - 1 }

unfoldable pub acquire_trusted : Cap → Cap
acquire_trusted c = record c { trusted = c.trusted + 1 }

unfoldable pub release_trusted : Cap → Cap
release_trusted c = record c { trusted = c.trusted - 1 }

unfoldable pub track : ℕ → Cap → Cap
track fd c = record c { fds = put fd c.fds }

unfoldable pub untrack : ℕ → Cap → Cap
untrack fd c = record c { fds = remove fd c.fds }

pub data Verdict : Type 0 where
  admitted duplicate full : Verdict

unfoldable pub admit_free : ℕ → Cap × Bool → Cap × Verdict
admit_free fd (c, false) = (c, full)
admit_free fd (c, true) = (track fd c, admitted)

-- `same` compares two descriptors by open file.
unfoldable pub admit_probe : ℕ → (ℕ → ℕ → Bool) → Cap → Cap × Verdict
unfolding admit_free
admit_probe fd same c = if any (same fd) c.fds then (c, duplicate) else admit_free fd (acquire c)

unfoldable pub admit_trusted : ℕ → Cap → Cap
admit_trusted fd c = acquire_trusted (track fd c)
