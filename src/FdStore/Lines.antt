-- ===== src/FdStore/Lines.antt =====
-- What a message says, and what the environment gives back.
use drawbridge.Base.{
  ℕ, suc, ◌<◌, ◌^◌, ◌≡◌, refl, Bool, true, false, not, ◌&&◌, none, some, List, [], ◌∷◌, ◌++◌, eqb,
  length, arith, is_some,
}
use drawbridge.Base.Bytes.{bytes, split, join, lacks, all_lack, split-join}
use drawbridge.Base.Numerals.{decimal, atoi-decimal, nonempty-decimal, nonempty}
use drawbridge.FdStore.{
  valid_name, has_bad_rune, store_message, remove_message, listen_fd_start, ListenEnv, inherited,
  numbered, named, counted, addressed, parse_listen_env,
}

lacks_colon-good : (name : List ℕ) → has_bad_rune name ≡ false → lacks b':' name ≡ true
unfolding has_bad_rune lacks
lacks_colon-good [] h = refl
lacks_colon-good (r ∷ name) h = ground (arith, lacks_colon-good name)

lacks_newline-good : (name : List ℕ) → has_bad_rune name ≡ false → lacks b'\n' name ≡ true
unfolding has_bad_rune lacks
lacks_newline-good [] h = refl
lacks_newline-good (r ∷ name) h = ground (arith, lacks_newline-good name)

valid-good : (name : List ℕ) → valid_name name ≡ none → has_bad_rune name ≡ false
unfolding valid_name
valid-good [] h = ground arith
valid-good (r ∷ name) h = ground arith

-- The message for a valid name is two assignments, each on a line of its own.
pub messages_lines :
    (name : List ℕ)
    → valid_name name ≡ none
    → ((text : List ℕ) × (store_message name ≡ some text)
        × (split b'\n' text ≡ bytes "FDSTORE=1" ∷ (bytes "FDNAME=" ++ name) ∷ [] ∷ []))
      × ((text : List ℕ) × (remove_message name ≡ some text)
          × (split b'\n' text ≡ bytes "FDSTOREREMOVE=1" ∷ (bytes "FDNAME=" ++ name) ∷ [] ∷ []))
unfolding store_message remove_message join
messages_lines name h =
    let clean = lacks_newline-good name (valid-good name h) in
    (
      (
        bytes "FDSTORE=1\nFDNAME=" ++ (name ++ b'\n' ∷ []),
        ground (arith, h),
        unfold lacks all_lack in
            split-join b'\n' (bytes "FDSTORE=1") ((bytes "FDNAME=" ++ name) ∷ [] ∷ [])
              (ground (arith, clean)),
      ),
      (
        bytes "FDSTOREREMOVE=1\nFDNAME=" ++ (name ++ b'\n' ∷ []),
        ground (arith, h),
        unfold lacks all_lack in
            split-join b'\n' (bytes "FDSTOREREMOVE=1") ((bytes "FDNAME=" ++ name) ∷ [] ∷ [])
              (ground (arith, clean)),
      ),
    )

-- Names that the store accepts.
abbrev pub all_valid : List (List ℕ) → Bool
all_valid [] = true
all_valid (name ∷ names) = not (is_some (valid_name name)) && all_valid names

-- What systemd passes to the process `pid` for descriptors of the given names.
abbrev pub listen_env : ℕ → List (List ℕ) → ListenEnv
listen_env pid names = record {
  listen_pid = decimal pid;
  listen_fds = decimal (length names);
  listen_fdnames = join b':' names;
}

all_valid-lacks : (names : List (List ℕ)) → all_valid names ≡ true → all_lack b':' names ≡ true
unfolding all_lack
all_valid-lacks [] h = refl
all_valid-lacks (name ∷ names) h =
    ground (arith, lacks_colon-good name, valid-good name, all_valid-lacks names)

named-join :
    (raw name : List ℕ) (names : List (List ℕ))
    → split b':' raw ≡ name ∷ names
    → nonempty raw ≡ true
    → named (suc (length names)) raw ≡ inherited (numbered listen_fd_start (name ∷ names))
unfolding named
named-join [] name names e h = ground arith
named-join (c ∷ raw) name names e h = rw e (ground arith)

nonempty-join :
    (name : List ℕ) (names : List (List ℕ))
    → valid_name name ≡ none
    → nonempty (join b':' (name ∷ names)) ≡ true
unfolding valid_name join
nonempty-join [] names h = ground arith
nonempty-join (c ∷ name) [] h = refl
nonempty-join (c ∷ name) (next ∷ names) h = refl

unset-nonempty : (t : List ℕ) → nonempty t ≡ true → eqb (length t) 0 ≡ false
unset-nonempty [] h = ground arith
unset-nonempty (c ∷ t) h = ground arith

-- The names that a process stored its descriptors under come back to the process that systemd starts
-- next, in order, on the descriptors from 3 on.
pub parse_listen_env-names :
    (pid : ℕ) (name : List ℕ) (names : List (List ℕ))
    → pid < 2 ^ 63
    → length (name ∷ names) < 2 ^ 63
    → all_valid (name ∷ names) ≡ true
    → parse_listen_env (listen_env pid (name ∷ names)) pid
      ≡ inherited (numbered listen_fd_start (name ∷ names))
unfolding parse_listen_env addressed counted
parse_listen_env-names pid name names small few valid =
    let n = suc (length names) in
    let raw = join b':' (name ∷ names) in
    rw (unset-nonempty (decimal pid) (nonempty-decimal pid)) (
      rw (unset-nonempty (decimal n) (nonempty-decimal n)) (
        rw (atoi-decimal pid small) (
          rw (atoi-decimal n few) (
            ground (
              arith,
              named-join raw name names
                  (split-join b':' name names (all_valid-lacks (name ∷ names) valid))
                  (nonempty-join name names (ground arith)),
            )))))
