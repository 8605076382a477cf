-- ===== src/Mirror/Effects.antt =====
-- What each handler of mirror.go besides reconcile does to the mirror at a key.
use drawbridge.Base.{
  ℕ, ◌+◌, ◌-◌, ◌≡◌, refl, Bool, true, false, ◌&&◌, Option, none, some, List, [], ◌∷◌, arith,
  if◌then◌else◌, Option-cases, inl, inr, eqb, leb,
}
use drawbridge.Base.Eq.{◌==◌, contains, string_eq}
use drawbridge.Base.Table.{lookup, keys, contains-keys}
use drawbridge.Mirror.Types.{ListenerInfo, MirrorKey, key_eq, key_beq_iff, MirrorEntry, Client, Mac}
use drawbridge.Mirror.Policy.{mirrorable, declined}
use drawbridge.Mirror.Sockets.{close_mirror}
use drawbridge.Mirror.Session.{key_of, add_key, add, del_key, del, close_keys, close_all}
use drawbridge.Mirror.Reserve.{release_entry, release_if_pending}
use drawbridge.Mirror.View.{
  view_at, can_open, view-declined, view-close_mirror, view-set, view-open_locked, declined-skips,
}
use drawbridge.Mirror.Reconcile.{asks}

-- The mirror at the key of a listener that the guest adds.
abbrev pub added : Bool → Option (ℕ × Bool) → Option (ℕ × Bool)
added opens none = if opens then some (1, false) else none
added opens (some (refs, pending)) = some (if pending then 1 else refs + 1, false)

-- The mirror at the key of a listener that the guest drops.
abbrev pub dropped : Option (ℕ × Bool) → Option (ℕ × Bool)
dropped none = none
dropped (some (refs, pending)) =
    if pending then some (refs, true) else if leb refs 1 then none else some (refs - 1, false)

module _ (j : MirrorKey) where
  add_key-some :
      (m : Mac) (key : MirrorKey) (e : MirrorEntry) (c : Client)
      → lookup key c.mirrors ≡ some e
      → view_at j (add_key m key (some e) c)
        ≡ (if key == j then added (can_open m j) (view_at j c) else view_at j c)
  unfolding add_key
  add_key-some m key e c q = ground (
    arith,
    key_beq_iff key j,
    view-set j key (record e { pending = false; refs = 1 }) c,
    view-set j key (record e { refs = e.refs + 1 }) c,
  )

  add_key-view :
      (m : Mac) (key : MirrorKey) (c : Client)
      → view_at j (add_key m key (lookup key c.mirrors) c)
        ≡ (if key == j then added (can_open m j) (view_at j c) else view_at j c)
  unfolding add_key
  add_key-view m key c = elim (Option-cases (lookup key c.mirrors)) [
    | inl q ↦ ground (arith, key_beq_iff key j, view-open_locked j m key 1 c)
    | inr (e, q) ↦ ground (arith, add_key-some m key e c q)
  ]

  -- `add` changes the mirror at the listener's own key alone, if the listener asks for one: opened
  -- with one reference, adopted with one reference if it was reserved, or counted once more.
  pub add-view :
      (m : Mac) (l : ListenerInfo) (c : Client)
      → view_at j (add m l c)
        ≡ (if asks c.config l j then added (can_open m j) (view_at j c) else view_at j c)
  unfolding add asks
  add-view m l c =
      let c' = (declined m.now l.proto l.port c).0 in
      ground (
        arith,
        add_key-view m (key_of l) c',
        view-declined j m.now l.proto l.port c,
        declined-skips m.now l.proto l.port c,
        key_beq_iff (key_of l) j,
      )

  del_key-some :
      (key : MirrorKey) (e : MirrorEntry) (c : Client)
      → lookup key c.mirrors ≡ some e
      → view_at j (del_key key (some e) c)
        ≡ (if key == j then dropped (view_at j c) else view_at j c)
  unfolding del_key
  del_key-some key e c q = ground (
    arith,
    key_beq_iff key j,
    view-close_mirror j key e c,
    view-set j key (record e { refs = e.refs - 1 }) c,
  )

  -- `del` changes the mirror at the listener's own key alone: one reference less, and closed with
  -- the last one; a pending reservation stays as it is.
  pub del-view :
      (l : ListenerInfo) (c : Client)
      → view_at j (del l c)
        ≡ (if mirrorable c.config l && key_of l == j then dropped (view_at j c) else view_at j c)
  unfolding del del_key
  del-view l c = elim (Option-cases (lookup (key_of l) c.mirrors)) [
    | inl q ↦ ground (arith, key_beq_iff (key_of l) j)
    | inr (e, q) ↦ ground (arith, del_key-some (key_of l) e c q)
  ]

  close_keys-view :
      (ks : List MirrorKey) (c : Client)
      → view_at j (close_keys ks c) ≡ (if contains j ks then none else view_at j c)
  unfolding close_keys contains
  close_keys-view [] c = refl
  close_keys-view (k ∷ ks) c = elim (Option-cases (lookup k c.mirrors)) [
    | inl q ↦ ground (arith, key_beq_iff k j, close_keys-view ks c)
    | inr (e, q) ↦
        ground (
          arith,
          key_beq_iff k j,
          view-close_mirror j k e c,
          close_keys-view ks (close_mirror k e c),
        )
  ]

  -- The end of a session leaves no mirror, and no reservation either.
  pub close_all-view : (c : Client) → view_at j (close_all c) ≡ none
  unfolding close_all
  close_all-view c = ground (arith, close_keys-view (keys c.mirrors) c, contains-keys j c.mirrors)

  pub release-view :
      (key : MirrorKey) (sock : ℕ) (c : Client)
      → view_at j (release_if_pending key sock c) ≡ (
          if key == j
          then elim (lookup key c.mirrors) [
            | none ↦ none
            | some e ↦ if eqb e.sock sock && e.pending then none else some (e.refs, e.pending)
          ]
          else view_at j c)
  unfolding release_if_pending release_entry
  release-view key sock c = elim (Option-cases (lookup key c.mirrors)) [
    | inl q ↦ ground (arith, key_beq_iff key j)
    | inr (e, q) ↦ ground (arith, key_beq_iff key j, view-close_mirror j key e c)
  ]
