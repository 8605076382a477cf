-- ===== src/Mirror/View.antt =====
-- The mirror table of mirror.go seen from outside: at each key nothing, or a mirror with its
-- reference count and whether it is a pending reservation. The laws of opening and closing.
use drawbridge.Base.{
  ℕ, suc, ◌+◌, ◌≡◌, refl, sym, ap, ◌∙◌, String, Bool, true, false, ◌&&◌, ◌||◌, Option, none, some,
  List, [], ◌∷◌, arith, if◌then◌else◌, is_some, Bool-cases, Option-cases, inl, inr, eqb, eq_iff,
}
use drawbridge.Base.Eq.{◌==◌, string_eq}
use drawbridge.Base.Table.{lookup, lookup-insert, lookup-delete}
use drawbridge.Mirror.Types.{MirrorKey, key_eq, MirrorEntry, Client, Mac, BindResult, bound}
use drawbridge.Mirror.Policy.{observe, forget, note_skip, declined, skips, mac_held}
use drawbridge.Mirror.Sockets.{
  register, stop, close_mirror, log_bind_error, bind_mirror, open_locked,
}

abbrev pub entry_view : Option MirrorEntry → Option (ℕ × Bool)
entry_view none = none
entry_view (some e) = some (e.refs, e.pending)

abbrev pub view_at : MirrorKey → Client → Option (ℕ × Bool)
view_at j c = entry_view (lookup j c.mirrors)

abbrev pub is_bound : BindResult → Bool
is_bound bound = true
is_bound _ = false

-- Whether `openLocked` would open the key: no known native holder of a TCP port, and a bind that
-- succeeds.
unfoldable pub can_open : Mac → MirrorKey → Bool
can_open m key =
    (key.proto == "udp" || mac_held m key.proto key.port == "") && is_bound (m.listen key)

module _ (j : MirrorKey) where
  pub view-observe :
      (now : ℕ) (key : MirrorKey) (state : String) (c : Client)
      → view_at j (observe now key state c) ≡ view_at j c
  unfolding observe
  view-observe now key state c = ground arith

  pub view-declined :
      (now : ℕ) (proto : String) (port : ℕ) (c : Client)
      → view_at j (declined now proto port c).0 ≡ view_at j c
  unfolding declined note_skip observe
  view-declined now proto port c = ground arith

  pub view-register :
      (m : Mac) (key : MirrorKey) (n : ℕ) (pending : Bool) (c : Client)
      → view_at j (register m key n pending c)
        ≡ (if key == j then some (n, pending) else view_at j c)
  unfolding register forget
  view-register m key n pending c = rw lookup-insert (ground arith)

  pub view-close_mirror :
      (key : MirrorKey) (e : MirrorEntry) (c : Client)
      → view_at j (close_mirror key e c) ≡ (if key == j then none else view_at j c)
  unfolding close_mirror stop
  view-close_mirror key e c = rw lookup-delete (ground arith)

  pub view-set :
      (key : MirrorKey) (e : MirrorEntry) (c : Client)
      → entry_view (lookup j (drawbridge.Base.Table.insert key e c.mirrors))
        ≡ (if key == j then some (e.refs, e.pending) else view_at j c)
  view-set key e c = rw lookup-insert (ground arith)

  pub view-open_locked :
      (m : Mac) (key : MirrorKey) (n : ℕ) (c : Client)
      → view_at j (open_locked m key n c)
        ≡ (if key == j && can_open m key then some (n, false) else view_at j c)
  unfolding open_locked bind_mirror log_bind_error can_open
  view-open_locked m key n c = ground (
    arith,
    eq_iff key.proto "udp",
    view-observe m.now key "bind-failed" c,
    view-register m key n false c,
  )

-- No operation changes the configuration.
pub config-observe :
    (now : ℕ) (key : MirrorKey) (state : String) (c : Client)
    → (observe now key state c).config ≡ c.config
unfolding observe
config-observe now key state c = ground arith

pub config-declined :
    (now : ℕ) (proto : String) (port : ℕ) (c : Client)
    → (declined now proto port c).0.config ≡ c.config
unfolding declined note_skip observe
config-declined now proto port c = ground arith

pub config-open_locked :
    (m : Mac) (key : MirrorKey) (n : ℕ) (c : Client) → (open_locked m key n c).config ≡ c.config
unfolding open_locked bind_mirror log_bind_error register forget observe
config-open_locked m key n c = ground arith

pub declined-skips :
    (now : ℕ) (proto : String) (port : ℕ) (c : Client)
    → (declined now proto port c).1 ≡ skips c.config port
unfolding declined
declined-skips now proto port c = ground arith
