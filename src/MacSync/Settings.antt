-- ===== src/MacSync/Settings.antt =====
-- sync.go: the endpoint that the sessions use, and the defaults of the settings.
use Prim.Native.String.{String}
use drawbridge.Base.{ℕ, Option, none, some, eqb, if◌then◌else◌}
use drawbridge.Base.Eq.{◌==◌, string_eq}

-- The numbers are 0 where the source's are not positive; `cur_addr` is the last re-resolution.
pub record Settings : Type 0 where
  pub agent_addr : String
  pub cur_addr : Option String
  pub interval : ℕ
  pub pool_size : ℕ

abbrev pub default_pool_size : ℕ
default_pool_size = 8

unfoldable pub effective_interval : Settings → ℕ
effective_interval s = if eqb s.interval 0 then 75_000_000 else s.interval

unfoldable pub effective_pool_size : Settings → ℕ
effective_pool_size s = if eqb s.pool_size 0 then default_pool_size else s.pool_size

-- addr
unfoldable pub endpoint : Settings → String
endpoint s = elim s.cur_addr [ none ↦ s.agent_addr | some a ↦ a ]

-- refreshAddr, with the hook's answer: `none` without a hook.
unfoldable pub refresh_addr : Option String → Settings → Settings
refresh_addr none s = s
refresh_addr (some a) s = if a == "" then s else record s { cur_addr = some a }
