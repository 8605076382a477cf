-- ===== src/Supervise/Agent.antt =====
-- internal/agent/notify.go and internal/agent/fdstore.go: who owns a notify descriptor, from the
-- handoff to its close.
use drawbridge.Base.{
  ℕ, ◌+◌, Bool, true, false, not, ◌||◌, Option, none, some, List, [], ◌∷◌, ◌++◌, eqb, if◌then◌else◌,
  length,
}
use drawbridge.Base.Eq.{nat_eq}
use drawbridge.Base.Numerals.{decimal}
use drawbridge.FdStore.{
  prefix, store_message, remove_message, Inherited, is_notify_name, ListenEnv, Parsed, inherited,
  malformed, parse_listen_env,
}
use drawbridge.Supervise.Cap.{
  Cap, Verdict, admitted, duplicate, full, acquire, release, release_trusted, untrack, admit_probe,
  admit_trusted, max_supervised,
}

-- notifyStore, with the datagrams that the socket took, the last first. An empty `sock` is no store.
pub record NotifyStore : Type 0 where
  pub sock : List ℕ
  pub nonce : List ℕ
  pub seq : ℕ
  pub sent : List (List ℕ)

unfoldable pub store_name : NotifyStore → List ℕ
store_name s = (prefix ++ s.nonce) ++ (b'-' ∷ decimal s.seq)

sent_as : Bool → Option (List ℕ) → NotifyStore → NotifyStore × List ℕ
sent_as takes none s = (s, [])
sent_as takes (some msg) s =
    if takes then (record s { sent = msg ∷ s.sent }, store_name s) else (s, [])

-- notifyStore.add: the name, or empty. `takes` is whether Send succeeds.
unfoldable pub store_add : Bool → NotifyStore → NotifyStore × List ℕ
unfolding sent_as
store_add takes s =
    if eqb (length s.sock) 0
    then (s, [])
    else (let s' = record s { seq = s.seq + 1 } in sent_as takes (store_message (store_name s')) s')

dropped : Option (List ℕ) → NotifyStore → NotifyStore
dropped none s = s
dropped (some msg) s = record s { sent = msg ∷ s.sent }

-- notifyStore.remove
unfoldable pub store_remove : List ℕ → NotifyStore → NotifyStore
unfolding dropped
store_remove name s =
    if eqb (length name) 0 || eqb (length s.sock) 0 then s else dropped (remove_message name) s

-- A running `supervise`: its descriptor, its name in the store, and the bucket of its slot.
pub record Supervisor : Type 0 where
  pub fd : ℕ
  pub name : List ℕ
  pub is_trusted : Bool

-- `adopting` are the goroutines of superviseStored that have not traded their slot yet; `closed` the
-- descriptors that the agent closed, the last first.
pub record Notify : Type 0 where
  pub cap : Cap
  pub store : NotifyStore
  pub adopting : List Inherited
  pub supervisors : List Supervisor
  pub closed : List ℕ

abbrev pub new_notify : NotifyStore → Notify
new_notify store = record {
  cap = record { max = max_supervised; n = 0; trusted = 0; fds = [] };
  store = store;
  adopting = [];
  supervisors = [];
  closed = [];
}

-- refuse, without its log line.
unfoldable pub refuse : ℕ → Notify → Notify
refuse fd s = record s { closed = fd ∷ s.closed }

-- superviseNew, up to the supervisor's loop.
unfoldable pub supervise_new : Bool → ℕ → Bool → Notify → Notify
supervise_new takes fd is_trusted s =
    let (store, name) = store_add takes s.store in
    record s {
      store = store;
      supervisors = record { fd = fd; name = name; is_trusted = is_trusted } ∷ s.supervisors;
    }

unfoldable pub probed : Bool → ℕ → Notify → Cap × Verdict → Notify
probed takes fd s (c, duplicate) = refuse fd s
probed takes fd s (c, full) = refuse fd s
probed takes fd s (c, admitted) = supervise_new takes fd false (record s { cap = c })

-- acceptProbeFd
unfoldable pub accept_probe_fd : Bool → (ℕ → ℕ → Bool) → Bool → ℕ → Notify → Notify
unfolding probed
accept_probe_fd is_listener same takes fd s =
    if is_listener then probed takes fd s (admit_probe fd same s.cap) else refuse fd s

-- acceptOCIFd
unfoldable pub accept_oci_fd : Bool → Bool → ℕ → Notify → Notify
accept_oci_fd is_listener takes fd s =
    if is_listener
    then supervise_new takes fd true (record s { cap = admit_trusted fd s.cap })
    else refuse fd s

unfoldable pub adopt_slot : Inherited → Notify → Cap × Bool → Notify
adopt_slot i s (c, false) = record s {
  closed = i.fd ∷ s.closed;
  store = store_remove i.name s.store;
}
adopt_slot i s (c, true) = record s { cap = c; adopting = i ∷ s.adopting }

-- The loop's body in AdoptStoredFds.
unfoldable pub adopt_one : (ℕ → Bool) → Inherited → Notify → Notify
unfolding adopt_slot
adopt_one is_listener i s =
    if not (is_notify_name i.name)
    then record s { closed = i.fd ∷ s.closed }
    else if not (is_listener i.fd)
    then record s { closed = i.fd ∷ s.closed; store = store_remove i.name s.store }
    else adopt_slot i s (acquire s.cap)

unfoldable pub adopt_all : (ℕ → Bool) → List Inherited → Notify → Notify
adopt_all is_listener [] s = s
adopt_all is_listener (i ∷ is) s = adopt_all is_listener is (adopt_one is_listener i s)

unfoldable pub adopt_parsed : (ℕ → Bool) → Parsed → Notify → Notify
adopt_parsed is_listener malformed s = s
adopt_parsed is_listener (inherited is) s = adopt_all is_listener is s

-- AdoptStoredFds
unfoldable pub adopt_stored_fds : (ℕ → Bool) → ListenEnv → ℕ → Notify → Notify
unfolding adopt_parsed
adopt_stored_fds is_listener env pid s = adopt_parsed is_listener (parse_listen_env env pid) s

-- superviseStored, up to the supervisor's loop: the capped slot is traded for a trusted one.
unfoldable pub supervise_stored : Inherited → List Inherited → Notify → Notify
supervise_stored i rest s = record s {
  cap = admit_trusted i.fd (release s.cap);
  adopting = rest;
  supervisors = record { fd = i.fd; name = i.name; is_trusted = true } ∷ s.supervisors;
}

-- The end of supervise, whatever ended its loop.
unfoldable pub supervise_ends : Supervisor → List Supervisor → Notify → Notify
supervise_ends g rest s =
    let c = untrack g.fd s.cap in
    record s {
      cap = if g.is_trusted then release_trusted c else release c;
      closed = g.fd ∷ s.closed;
      store = store_remove g.name s.store;
      supervisors = rest;
    }
