-- ===== src/Endpoint.antt =====
-- internal/transport/transport.go: the grammar of endpoints. Texts are their bytes; an error's words are
-- left out.
pub mod HostPort
pub mod Canonical
pub mod RoundTrip
pub mod Runs
use drawbridge.Base.{
  ℕ, Bool, true, false, not, Option, none, some, List, [], ◌∷◌, ◌++◌, if◌then◌else◌, is_some,
}
use drawbridge.Base.Eq.{◌==◌}
use drawbridge.Base.Bytes.{bytes, bytes_eq, has_prefix, cut}
use drawbridge.Base.Numerals.{parse_uint}
use drawbridge.Endpoint.HostPort.{split_host_port, join_host_port, cut_text}

abbrev pub scheme_tcp : List ℕ
scheme_tcp = bytes "tcp"

abbrev pub scheme_unix : List ℕ
scheme_unix = bytes "unix"

abbrev pub scheme_vsock : List ℕ
scheme_vsock = bytes "vsock"

pub record Endpoint : Type 0 where
  pub scheme : List ℕ
  pub addr : List ℕ

abbrev is_empty : List ℕ → Bool
is_empty [] = true
is_empty (c ∷ s) = false

-- Endpoint.String
unfoldable pub text_of : Endpoint → List ℕ
text_of e = if is_empty e.scheme then e.addr else e.scheme ++ (bytes "://" ++ e.addr)

port_of : Option (List ℕ × List ℕ) → ℕ
port_of none = 0
port_of (some (host, port)) = elim (parse_uint 16 port) [ none ↦ 0 | some v ↦ v ]

-- Endpoint.Port
unfoldable pub port : Endpoint → ℕ
unfolding port_of
port e =
    if e.scheme == scheme_tcp
    then port_of (split_host_port e.addr)
    else if e.scheme == scheme_vsock
    then port_of (cut b':' e.addr)
    else 0

unfoldable pub parse_tcp : Option (List ℕ × List ℕ) → Option Endpoint
parse_tcp none = none
parse_tcp (some (host, port)) =
    if is_some (parse_uint 16 port)
    then some (record { scheme = scheme_tcp; addr = join_host_port host port })
    else none

unfoldable pub parse_vsock : Option (List ℕ × List ℕ) → Option Endpoint
parse_vsock none = none
parse_vsock (some (cid, port)) =
    if not (is_some (parse_uint 32 cid))
    then none
    else if not (is_some (parse_uint 16 port))
    then none
    else some (record { scheme = scheme_vsock; addr = cid ++ b':' ∷ port })

-- The switch on the scheme.
unfoldable pub parse_scheme : List ℕ × List ℕ → Option Endpoint
unfolding parse_tcp parse_vsock
parse_scheme (scheme, addr) =
    if scheme == scheme_tcp
    then parse_tcp (split_host_port addr)
    else if scheme == scheme_unix
    then (if has_prefix (bytes "/") addr
        then some (record { scheme = scheme_unix; addr = addr })
        else none)
    else if scheme == scheme_vsock
    then parse_vsock (cut b':' addr)
    else none

-- A bare endpoint is tcp's.
unfoldable pub schemed : List ℕ → Option (List ℕ × List ℕ) → List ℕ × List ℕ
schemed endpoint none = (scheme_tcp, endpoint)
schemed endpoint (some parts) = parts

-- Parse
unfoldable pub parse : List ℕ → Option Endpoint
unfolding parse_scheme schemed
parse endpoint =
    if is_empty endpoint
    then none
    else parse_scheme (schemed endpoint (cut_text (bytes "://") endpoint))

-- What an endpoint is dialled or listened on as: a network and its address, or an error.
pub data Target : Type 0 where
  on_tcp on_unix : List ℕ → Target
  unsupported bad_endpoint : Target

target_of : Option Endpoint → Target
target_of none = bad_endpoint
target_of (some e) =
    if e.scheme == scheme_tcp
    then on_tcp e.addr
    else if e.scheme == scheme_unix
    then on_unix e.addr
    else unsupported

-- DialTimeout up to the call of net.DialTimeout.
unfoldable pub dial_target : List ℕ → Target
unfolding target_of
dial_target endpoint = target_of (parse endpoint)

-- Listen up to the call of net.Listen.
unfoldable pub listen_target : List ℕ → Target
unfolding target_of
listen_target endpoint = target_of (parse endpoint)
