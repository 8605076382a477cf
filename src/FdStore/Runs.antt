-- ===== src/FdStore/Runs.antt =====
-- The store's theorems at concrete names.
use drawbridge.Base.{ℕ, ◌≡◌, refl, some, List, [], ◌∷◌, ◌++◌, arith}
use drawbridge.Base.Bytes.{bytes, split}
use drawbridge.FdStore.{
  valid_name, has_bad_rune, store_message, remove_message, listen_fd_start, inherited, numbered,
  parse_listen_env,
}
use drawbridge.FdStore.Lines.{listen_env, messages_lines, parse_listen_env-names}

abbrev stored_name : List ℕ
stored_name = bytes "notify-18f3-1"

stored_name_lines :
    ((text : List ℕ) × (store_message stored_name ≡ some text)
      × (split b'\n' text ≡ bytes "FDSTORE=1" ∷ (bytes "FDNAME=" ++ stored_name) ∷ [] ∷ []))
    × ((text : List ℕ) × (remove_message stored_name ≡ some text)
        × (split b'\n' text ≡ bytes "FDSTOREREMOVE=1" ∷ (bytes "FDNAME=" ++ stored_name) ∷ [] ∷ []))
unfolding valid_name has_bad_rune
stored_name_lines = messages_lines stored_name refl

names_come_back :
    parse_listen_env (listen_env 812 (stored_name ∷ bytes "notify-18f3-2" ∷ [])) 812
    ≡ inherited (numbered listen_fd_start (stored_name ∷ bytes "notify-18f3-2" ∷ []))
unfolding valid_name has_bad_rune
names_come_back =
    parse_listen_env-names 812 stored_name (bytes "notify-18f3-2" ∷ []) (omega arith) (omega arith)
      refl
