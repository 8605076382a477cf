-- ===== src/FdStore.antt =====
-- internal/fdstore/fdstore.go: names and messages of systemd's descriptor store. Texts are their
-- bytes: a rune below 0x80 is one byte, and no other rune has such a byte, so the loop over the runes
-- of a name is a loop over its bytes.
pub mod Lines
pub mod Runs
use drawbridge.Base.{
  ℕ, zero, suc, ◌+◌, Bool, true, false, not, ◌&&◌, ◌||◌, Option, none, some, List, [], ◌∷◌, ◌++◌,
  eqb, ltb, if◌then◌else◌, length,
}
use drawbridge.Base.Bytes.{bytes, has_prefix, split}
use drawbridge.Base.Numerals.{ℤ, pos, negsuc, atoi, equals_nat}

abbrev pub prefix : List ℕ
prefix = bytes "notify-"

abbrev pub max_name_len : ℕ
max_name_len = 255

pub data NameError : Type 0 where
  empty_name long_name bad_byte : NameError

-- r == ':' || r < 0x20 || r == 0x7f
abbrev pub bad_rune : ℕ → Bool
bad_rune r = eqb r b':' || ltb r 0x20 || eqb r 0x7f

unfoldable pub has_bad_rune : List ℕ → Bool
has_bad_rune [] = false
has_bad_rune (r ∷ name) = bad_rune r || has_bad_rune name

-- ValidName: `none` is the nil error.
unfoldable pub valid_name : List ℕ → Option NameError
valid_name [] = some empty_name
valid_name (r ∷ name) =
    if ltb max_name_len (length (r ∷ name))
    then some long_name
    else if has_bad_rune (r ∷ name)
    then some bad_byte
    else none

message : Option NameError → List ℕ → Option (List ℕ)
message none text = some text
message (some e) text = none

-- StoreMessage
unfoldable pub store_message : List ℕ → Option (List ℕ)
unfolding message
store_message name = message (valid_name name) (bytes "FDSTORE=1\nFDNAME=" ++ (name ++ b'\n' ∷ []))

-- RemoveMessage
unfoldable pub remove_message : List ℕ → Option (List ℕ)
unfolding message
remove_message name =
    message (valid_name name) (bytes "FDSTOREREMOVE=1\nFDNAME=" ++ (name ++ b'\n' ∷ []))

pub record Inherited : Type 0 where
  pub fd : ℕ
  pub name : List ℕ

abbrev pub listen_fd_start : ℕ
listen_fd_start = 3

-- The three variables of the environment; an unset one is empty.
pub record ListenEnv : Type 0 where
  pub listen_pid : List ℕ
  pub listen_fds : List ℕ
  pub listen_fdnames : List ℕ

pub data Parsed : Type 0 where
  inherited : List Inherited → Parsed
  malformed : Parsed

unfoldable pub numbered : ℕ → List (List ℕ) → List Inherited
numbered fd [] = []
numbered fd (name ∷ names) = record { fd = fd; name = name } ∷ numbered (fd + 1) names

unfoldable pub unknown_names : ℕ → List (List ℕ)
unknown_names zero = []
unknown_names (suc n) = bytes "unknown" ∷ unknown_names n

-- The names for n descriptors.
unfoldable pub named : ℕ → List ℕ → Parsed
named n [] = inherited (numbered listen_fd_start (unknown_names n))
named n (c ∷ raw) =
    let parts = split b':' (c ∷ raw) in
    if eqb (length parts) n then inherited (numbered listen_fd_start parts) else malformed

unfoldable pub counted : Option ℤ → List ℕ → Parsed
counted none raw = malformed
counted (some (negsuc n)) raw = malformed
counted (some (pos n)) raw = if eqb n 0 then inherited [] else named n raw

unfoldable pub addressed : ℕ → Option ℤ → ListenEnv → Parsed
unfolding counted
addressed pid none env = malformed
addressed pid (some lp) env =
    if equals_nat lp pid then counted (atoi env.listen_fds) env.listen_fdnames else inherited []

abbrev is_unset : List ℕ → Bool
is_unset v = eqb (length v) 0

-- ParseListenEnv
unfoldable pub parse_listen_env : ListenEnv → ℕ → Parsed
unfolding addressed
parse_listen_env env pid =
    if is_unset env.listen_pid || is_unset env.listen_fds
    then inherited []
    else addressed pid (atoi env.listen_pid) env

-- IsNotifyName
abbrev pub is_notify_name : List ℕ → Bool
is_notify_name name = has_prefix prefix name
