-- ===== src/MacSync/Holder.antt =====
-- holder.go: which native Mac listener a mirror would take traffic from.
use drawbridge.Base.{
  ℕ, String, Bool, true, false, not, ◌&&◌, ◌||◌, Option, none, some, List, [], ◌∷◌, eqb,
  if◌then◌else◌,
}
use drawbridge.Base.Eq.{◌==◌, string_eq}
use drawbridge.MacSync.Listeners.{Addr, Listener, is4, is6, unmap, is_unspecified}

-- The loop's tests of one listener, `ip` unmapped.
unfoldable pub holds : ℕ → Addr → Listener → Bool
holds port ip l =
    let a = unmap l.addr in
    if not (l.proto == "tcp") || not (eqb l.port port)
    then false
    else if not (is_unspecified a)
    then false
    else if is4 ip && is4 a
    then true
    else if is4 ip && is6 a && not l.v6_only
    then true
    else is6 ip && is6 a

unfoldable pub first_holder : ℕ → Addr → List Listener → Option Listener
first_holder port ip [] = none
first_holder port ip (l ∷ ls) = if holds port ip l then some l else first_holder port ip ls

unfoldable pub wildcard_holder : List Listener → ℕ → Addr → Option Listener
unfolding first_holder
wildcard_holder ls port mirror_ip = first_holder port (unmap mirror_ip) ls

-- The predicate's answer: not known, known to be free, or the holder, which describeHolder spells.
pub data Answer : Type 0 where
  unknown : Answer
  free : Answer
  held : Listener → Answer

unfoldable pub found : Option Listener → Answer
found none = free
found (some l) = held l

unfoldable pub polled_holder : ℕ → Addr → Option (List Listener) → Answer
unfolding found
polled_holder port ip none = unknown
polled_holder port ip (some []) = unknown
polled_holder port ip (some (l ∷ ls)) = found (wildcard_holder (l ∷ ls) port ip)

-- HolderCheck's closure: `ip` is what netip.ParseAddr made of mirrorIP, `polled` what a fresh poll
-- returns, both `none` for an error.
unfoldable pub holder_check : Option Addr → String → ℕ → Option (List Listener) → Answer
unfolding polled_holder
holder_check none proto port polled = unknown
holder_check (some ip) proto port polled =
    if proto == "tcp" then polled_holder port ip polled else unknown
