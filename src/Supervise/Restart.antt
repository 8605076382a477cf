-- ===== src/Supervise/Restart.antt =====
-- A restart of the agent: what was stored comes back under supervision.
use mathlib.Core.Path.{subst}
use drawbridge.Base.{
  ℕ, ◌+◌, ◌^◌, ◌≤◌, ◌<◌, ◌≡◌, refl, sym, Bool, true, ◌&&◌, List, [], ◌∷◌, length, arith,
}
use drawbridge.FdStore.{Inherited, numbered, is_notify_name, listen_fd_start}
use drawbridge.FdStore.Lines.{all_valid, listen_env, parse_listen_env-names}
use drawbridge.Supervise.Cap.{acquire, max_supervised}
use drawbridge.Supervise.Agent.{
  Notify, NotifyStore, new_notify, adopt_slot, adopt_one, adopt_all, adopt_parsed, adopt_stored_fds,
}

abbrev pub all_ours : List (List ℕ) → Bool
all_ours [] = true
all_ours (name ∷ names) = is_notify_name name && all_ours names

abbrev pub everyone : ℕ → Bool
everyone fd = true

-- The same descriptors, the last first.
abbrev pub onto : List Inherited → List Inherited → List Inherited
onto [] acc = acc
onto (i ∷ is) acc = onto is (i ∷ acc)

adopt_slot-free :
    (i : Inherited) (s : Notify)
    → s.cap.max ≡ max_supervised
    → s.cap.n < max_supervised
    → adopt_slot i s (acquire s.cap)
      ≡ record s { cap = record s.cap { n = s.cap.n + 1 }; adopting = i ∷ s.adopting }
unfolding adopt_slot acquire
adopt_slot-free i s e lt = ground arith

adopt_all-free :
    (names : List (List ℕ)) (fd : ℕ) (s : Notify)
    → all_ours names ≡ true
    → s.cap.max ≡ max_supervised
    → s.cap.n + length names ≤ max_supervised
    → ((adopt_all everyone (numbered fd names) s).adopting ≡ onto (numbered fd names) s.adopting)
      × ((adopt_all everyone (numbered fd names) s).closed ≡ s.closed)
      × ((adopt_all everyone (numbered fd names) s).store ≡ s.store)
unfolding adopt_all adopt_one numbered
adopt_all-free [] fd s ours e few = (refl, refl, refl)
adopt_all-free (name ∷ names) fd s ours e few =
    let i : Inherited = record { fd = fd; name = name } in
    let s' : Notify = record s {
      cap = record s.cap { n = s.cap.n + 1 };
      adopting = i ∷ s.adopting;
    } in
    let one : adopt_one everyone i s ≡ s' = ground (arith, adopt_slot-free i s) in
    let rest = numbered (fd + 1) names in
    subst
      (λ t.
        ((adopt_all everyone rest t).adopting ≡ onto rest (i ∷ s.adopting))
        × ((adopt_all everyone rest t).closed ≡ s.closed)
        × ((adopt_all everyone rest t).store ≡ s.store))
      (sym one) (adopt_all-free names (fd + 1) s' (ground arith) e (omega arith))

-- Up to 4096 descriptors that the last process stored, under names of this package, are all adopted
-- by the next: systemd passes their names on, the environment is read back, none is closed, and
-- nothing is dropped from the store.
pub adopt_stored_fds-restart :
    (pid : ℕ) (name : List ℕ) (names : List (List ℕ)) (store : NotifyStore)
    → pid < 2 ^ 63
    → length (name ∷ names) ≤ max_supervised
    → all_valid (name ∷ names) ≡ true
    → all_ours (name ∷ names) ≡ true
    → let s = adopt_stored_fds everyone (listen_env pid (name ∷ names)) pid (new_notify store) in
      (s.adopting ≡ onto (numbered listen_fd_start (name ∷ names)) [])
      × (s.closed ≡ [])
      × (s.store ≡ store)
unfolding adopt_stored_fds adopt_parsed
adopt_stored_fds-restart pid name names store small few valid ours =
    rw (parse_listen_env-names pid name names small (omega arith) valid)
      (adopt_all-free (name ∷ names) 3 (new_notify store) ours refl (omega arith))
