-- ===== src/Mirror/Settings.antt =====
-- No step of mirror.go's client changes its configuration.
use drawbridge.Base.{ℕ, ◌≡◌, refl, ◌∙◌, List, [], ◌∷◌, arith, Option-cases, inl, inr}
use drawbridge.Base.Table.{lookup, keys}
use drawbridge.Mirror.Types.{ListenerInfo, MirrorKey, key_eq, Client, Mac, ReserveReq}
use drawbridge.Mirror.Policy.{declined, note_skip, forget}
use drawbridge.Mirror.Sockets.{close_mirror, stop, register}
use drawbridge.Mirror.Session.{
  key_of, wanted, tally, settle_entry, settle, open_missing_one, open_missing, reconcile, add_key,
  add, del_key, del, handle_event, event_listener, close_keys, close_all,
}
use drawbridge.Mirror.Reserve.{
  tcp_key, reserve_bound, reserve_bind, handle_reserve, release_entry, release_if_pending,
}
use drawbridge.Mirror.Steps.{Step, event, session_end, reserve, ttl_fires, step}
use drawbridge.Mirror.View.{config-observe, config-declined, config-open_locked}
use drawbridge.Mirror.Reconcile.{tally-config}

settle-config :
    (want : List (MirrorKey × ℕ)) (ks : List MirrorKey) (c : Client)
    → (settle want ks c).config ≡ c.config
unfolding settle settle_entry close_mirror stop
settle-config want [] c = refl
settle-config want (k ∷ ks) c =
    ground (arith, settle-config want ks (settle_entry (wanted want k) k (lookup k c.mirrors) c))

open_missing-config :
    (m : Mac) (want : List (MirrorKey × ℕ)) (ks : List MirrorKey) (c : Client)
    → (open_missing m want ks c).config ≡ c.config
unfolding open_missing open_missing_one
open_missing-config m want [] c = refl
open_missing-config m want (k ∷ ks) c = ground (
  arith,
  open_missing-config m want ks (open_missing_one m (wanted want k) k c),
  config-open_locked m k (wanted want k) c,
)

reconcile-config :
    (m : Mac) (ls : List ListenerInfo) (c : Client) → (reconcile m ls c).config ≡ c.config
unfolding reconcile
reconcile-config m ls c =
    let acc = tally m.now ls ([], [], c) in
    open_missing-config m acc.0 (keys acc.0) (settle acc.0 (keys acc.2.mirrors) acc.2)
    ∙ settle-config acc.0 (keys acc.2.mirrors) acc.2
    ∙ tally-config m.now ls ([], [], c)

add-config : (m : Mac) (l : ListenerInfo) (c : Client) → (add m l c).config ≡ c.config
unfolding add add_key
add-config m l c =
    let c' = (declined m.now l.proto l.port c).0 in
    ground (arith, config-declined m.now l.proto l.port c, config-open_locked m (key_of l) 1 c')

del-config : (l : ListenerInfo) (c : Client) → (del l c).config ≡ c.config
unfolding del del_key close_mirror stop
del-config l c = ground arith

close_keys-config : (ks : List MirrorKey) (c : Client) → (close_keys ks c).config ≡ c.config
unfolding close_keys close_mirror stop
close_keys-config [] c = refl
close_keys-config (k ∷ ks) c = elim (Option-cases (lookup k c.mirrors)) [
  | inl q ↦ ground (arith, close_keys-config ks c)
  | inr (e, q) ↦ ground (arith, close_keys-config ks (close_mirror k e c))
]

handle_reserve-config :
    (m : Mac) (r : ReserveReq) (c : Client) → (handle_reserve m r c).0.config ≡ c.config
unfolding handle_reserve note_skip reserve_bind reserve_bound register forget
handle_reserve-config m r c = ground (arith, config-observe m.now (tcp_key r.port) "skipped" c)

pub step-config : (s : Step) (c : Client) → (step s c).config ≡ c.config
unfolding step handle_event close_all release_if_pending release_entry close_mirror stop
step-config (event m ev) c = ground (
  arith,
  reconcile-config m ev.listeners c,
  add-config m (event_listener ev) c,
  del-config (event_listener ev) c,
)
step-config session_end c = close_keys-config (keys c.mirrors) c
step-config (reserve m r) c = handle_reserve-config m r c
step-config (ttl_fires key sock) c = ground arith
