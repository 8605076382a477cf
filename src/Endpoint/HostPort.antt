-- ===== src/Endpoint/HostPort.antt =====
-- What transport.go uses of the packages net and strings.
use drawbridge.Base.{
  ℕ, ◌+◌, not, ◌&&◌, Option, none, some, List, [], ◌∷◌, ◌++◌, eqb, if◌then◌else◌, length, drop,
}
use drawbridge.Base.Bytes.{has_prefix, cut, lacks}

in_front : ℕ → Option (List ℕ × List ℕ) → Option (List ℕ × List ℕ)
in_front c none = none
in_front c (some (before, after)) = some (c ∷ before, after)

-- strings.Cut
unfoldable pub cut_text : List ℕ → List ℕ → Option (List ℕ × List ℕ)
unfolding in_front
cut_text sep [] = if has_prefix sep [] then some ([], []) else none
cut_text sep (c ∷ s) =
    let rest = in_front c (cut_text sep s) in
    if has_prefix sep (c ∷ s) then some ([], drop (length sep) (c ∷ s)) else rest

or_here : ℕ → ℕ → List ℕ → Option (List ℕ × List ℕ) → Option (List ℕ × List ℕ)
or_here sep c s none = if eqb c sep then some ([], s) else none
or_here sep c s (some (before, after)) = some (c ∷ before, after)

-- The two sides of the last `sep`.
unfoldable pub cut_last : ℕ → List ℕ → Option (List ℕ × List ℕ)
unfolding or_here
cut_last sep [] = none
cut_last sep (c ∷ s) = or_here sep c s (cut_last sep s)

-- What follows the bracket of a host in brackets: `before` and `port` are the sides of the last colon.
unfoldable pub bracketed :
    List ℕ → List ℕ × List ℕ → Option (List ℕ × List ℕ) → Option (List ℕ × List ℕ)
bracketed t (before, port) none = none
bracketed t (before, port) (some (host, rest)) =
    if not (eqb (length host + 2) (length before))
    then none
    else if lacks b'[' t && lacks b']' rest
    then some (host, port)
    else none

unfoldable pub at_last_colon : List ℕ → Option (List ℕ × List ℕ) → Option (List ℕ × List ℕ)
unfolding bracketed
at_last_colon s none = none
at_last_colon [] (some (before, port)) = none
at_last_colon (c ∷ s) (some (before, port)) =
    if eqb c b'['
    then bracketed s (before, port) (cut b']' s)
    else if lacks b':' before && lacks b'[' (c ∷ s) && lacks b']' (c ∷ s)
    then some (before, port)
    else none

-- net.SplitHostPort; `none` is an error.
unfoldable pub split_host_port : List ℕ → Option (List ℕ × List ℕ)
unfolding at_last_colon
split_host_port s = at_last_colon s (cut_last b':' s)

-- net.JoinHostPort
unfoldable pub join_host_port : List ℕ → List ℕ → List ℕ
join_host_port host port =
    if lacks b':' host then host ++ b':' ∷ port else b'[' ∷ (host ++ b']' ∷ b':' ∷ port)
