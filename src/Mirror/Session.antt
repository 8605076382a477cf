-- ===== src/Mirror/Session.antt =====
-- mirror.go: what an 'E' session does with each event, and the end of the session.
use drawbridge.Base.{
  ℕ, ◌+◌, ◌-◌, false, Option, none, some, List, [], ◌∷◌, eqb, leb, if◌then◌else◌, is_some,
}
use drawbridge.Base.Eq.{◌==◌, string_eq, contains}
use drawbridge.Base.Table.{lookup, insert, keys}
use drawbridge.Mirror.Types.{ListenerInfo, MirrorKey, key_eq, MirrorEntry, Client, Mac, Event}
use drawbridge.Mirror.Policy.{mirrorable, skips, declined}
use drawbridge.Mirror.Sockets.{close_mirror, open_locked}

abbrev pub key_of : ListenerInfo → MirrorKey
key_of l = record { proto = l.proto; port = l.port }

-- want[key]: 0 where the map lacks the key.
unfoldable pub wanted : List (MirrorKey × ℕ) → MirrorKey → ℕ
wanted want key = elim (lookup key want) [ none ↦ 0 | some n ↦ n ]

-- One round of reconcile's first loop, over (want, the keys of skipped, the client).
unfoldable pub tally_one :
    ℕ
    → ListenerInfo
    → List (MirrorKey × ℕ) × List MirrorKey × Client
    → List (MirrorKey × ℕ) × List MirrorKey × Client
tally_one now l (want, skipped, c) =
    if mirrorable c.config l
    then if skips c.config l.port
      then if contains (key_of l) skipped
        then (want, skipped, c)
        else (want, key_of l ∷ skipped, (declined now l.proto l.port c).0)
      else (insert (key_of l) (wanted want (key_of l) + 1) want, skipped, c)
    else (want, skipped, c)

unfoldable pub tally :
    ℕ
    → List ListenerInfo
    → List (MirrorKey × ℕ) × List MirrorKey × Client
    → List (MirrorKey × ℕ) × List MirrorKey × Client
tally now [] acc = acc
tally now (l ∷ ls) acc = tally now ls (tally_one now l acc)

-- One round of the loop over c.mirrors, which reads the entry that stands at the key.
unfoldable pub settle_entry : ℕ → MirrorKey → Option MirrorEntry → Client → Client
settle_entry n key none c = c
settle_entry n key (some e) c =
    if eqb n 0
    then if e.pending then c else close_mirror key e c
    else record c { mirrors = insert key (record e { pending = false; refs = n }) c.mirrors }

unfoldable pub settle : List (MirrorKey × ℕ) → List MirrorKey → Client → Client
settle want [] c = c
settle want (key ∷ keys) c =
    settle want keys (settle_entry (wanted want key) key (lookup key c.mirrors) c)

-- One round of the loop over want.
unfoldable pub open_missing_one : Mac → ℕ → MirrorKey → Client → Client
open_missing_one m n key c = if is_some (lookup key c.mirrors) then c else open_locked m key n c

unfoldable pub open_missing : Mac → List (MirrorKey × ℕ) → List MirrorKey → Client → Client
open_missing m want [] c = c
open_missing m want (key ∷ keys) c =
    open_missing m want keys (open_missing_one m (wanted want key) key c)

unfoldable pub reconcile : Mac → List ListenerInfo → Client → Client
reconcile m snapshot c =
    let (want, skipped, c') = tally m.now snapshot ([], [], c) in
    let c'' = settle want (keys c'.mirrors) c' in open_missing m want (keys want) c''

-- The rest of `add`, once the listener is to be mirrored.
unfoldable pub add_key : Mac → MirrorKey → Option MirrorEntry → Client → Client
add_key m key none c = open_locked m key 1 c
add_key m key (some e) c =
    let e' =
      if e.pending
      then record e { pending = false; refs = 1 }
      else record e { refs = e.refs + 1 } in
    record c { mirrors = insert key e' c.mirrors }

unfoldable pub add : Mac → ListenerInfo → Client → Client
add m l c =
    if mirrorable c.config l
    then (let (c', skip) = declined m.now l.proto l.port c in
        if skip then c' else add_key m (key_of l) (lookup (key_of l) c'.mirrors) c')
    else c

-- The rest of `del`. Where refs falls to 0 or below the entry goes, so the truncated - is exact.
unfoldable pub del_key : MirrorKey → Option MirrorEntry → Client → Client
del_key key none c = c
del_key key (some e) c =
    if e.pending
    then c
    else if leb e.refs 1
    then close_mirror key e c
    else record c { mirrors = insert key (record e { refs = e.refs - 1 }) c.mirrors }

unfoldable pub del : ListenerInfo → Client → Client
del l c = if mirrorable c.config l then del_key (key_of l) (lookup (key_of l) c.mirrors) c else c

abbrev pub event_listener : Event → ListenerInfo
event_listener ev = record { proto = ev.proto; port = ev.port; addr = ev.addr }

-- The switch of `session` on ev.Op; "ping" and every other op do nothing.
unfoldable pub handle_event : Mac → Event → Client → Client
handle_event m ev c =
    if ev.op == "snapshot"
    then reconcile m ev.listeners c
    else if ev.op == "add"
    then add m (event_listener ev) c
    else if ev.op == "del"
    then del (event_listener ev) c
    else c

unfoldable pub close_keys : List MirrorKey → Client → Client
close_keys [] c = c
close_keys (key ∷ keys) c =
    close_keys keys (elim (lookup key c.mirrors) [ none ↦ c | some e ↦ close_mirror key e c ])

unfoldable pub close_all : Client → Client
close_all c = close_keys (keys c.mirrors) c
