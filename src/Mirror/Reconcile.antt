-- ===== src/Mirror/Reconcile.antt =====
-- What mirror.go's reconcile makes of a snapshot.
use drawbridge.Base.{
  ℕ, suc, ◌+◌, ◌≡◌, refl, ◌∙◌, Bool, false, not, ◌&&◌, Option, none, some, List, [], ◌∷◌, arith,
  if◌then◌else◌, is_some, Option-cases, inl, inr, eqb,
}
use drawbridge.Base.Eq.{◌==◌, contains}
use drawbridge.Base.Table.{lookup, insert, keys, lookup-insert, contains-keys}
use drawbridge.Mirror.Types.{
  ListenerInfo, MirrorKey, key_eq, key_beq_iff, MirrorEntry, Config, Client, Mac,
}
use drawbridge.Mirror.Policy.{mirrorable, skips}
use drawbridge.Mirror.Session.{
  key_of, wanted, tally_one, tally, settle_entry, settle, open_missing_one, open_missing, reconcile,
}
use drawbridge.Mirror.View.{
  view_at, can_open, view-declined, view-close_mirror, view-set, view-open_locked, config-declined,
}

-- A listener that asks for a mirror at the key: mirrorable, and not on the skip-list.
unfoldable pub asks : Config → ListenerInfo → MirrorKey → Bool
asks cfg l j = mirrorable cfg l && not (skips cfg l.port) && key_of l == j

-- How many of the guest's listeners ask for a mirror at the key.
unfoldable pub demand : Config → List ListenerInfo → MirrorKey → ℕ
demand cfg [] j = 0
demand cfg (l ∷ ls) j = if asks cfg l j then suc (demand cfg ls j) else demand cfg ls j

-- The mirror at a key after a snapshot in which `n` listeners ask for it.
abbrev pub reconciled : ℕ → Bool → Option (ℕ × Bool) → Option (ℕ × Bool)
reconciled n opens none = if eqb n 0 then none else if opens then some (n, false) else none
reconciled n opens (some (refs, pending)) =
    if eqb n 0 then if pending then some (refs, pending) else none else some (n, false)

abbrev Tally : Type 0
Tally = List (MirrorKey × ℕ) × List MirrorKey × Client

wanted-insert :
    (key j : MirrorKey) (n : ℕ) (want : List (MirrorKey × ℕ))
    → wanted (insert key n want) j ≡ (if key == j then n else wanted want j)
unfolding wanted
wanted-insert key j n want = ground (arith, lookup-insert key j n want)

module _ (j : MirrorKey) where
  tally_one-wanted :
      (now : ℕ) (l : ListenerInfo) (acc : Tally)
      → wanted (tally_one now l acc).0 j
        ≡ (if asks acc.2.config l j then suc (wanted acc.0 j) else wanted acc.0 j)
  unfolding tally_one asks
  tally_one-wanted now l acc = ground (
    arith,
    key_beq_iff (key_of l) j,
    wanted-insert (key_of l) j (wanted acc.0 (key_of l) + 1) acc.0,
  )

  tally_one-view :
      (now : ℕ) (l : ListenerInfo) (acc : Tally)
      → view_at j (tally_one now l acc).2 ≡ view_at j acc.2
  unfolding tally_one
  tally_one-view now l acc = ground (arith, view-declined j now l.proto l.port acc.2)

tally_one-config :
    (now : ℕ) (l : ListenerInfo) (acc : Tally) → (tally_one now l acc).2.config ≡ acc.2.config
unfolding tally_one
tally_one-config now l acc = ground (arith, config-declined now l.proto l.port acc.2)

pub tally-config :
    (now : ℕ) (ls : List ListenerInfo) (acc : Tally) → (tally now ls acc).2.config ≡ acc.2.config
unfolding tally
tally-config now [] acc = refl
tally-config now (l ∷ ls) acc =
    tally-config now ls (tally_one now l acc) ∙ tally_one-config now l acc

module _ (j : MirrorKey) where
  tally-wanted :
      (now : ℕ) (ls : List ListenerInfo) (acc : Tally)
      → wanted (tally now ls acc).0 j ≡ wanted acc.0 j + demand acc.2.config ls j
  unfolding tally demand
  tally-wanted now [] acc = omega arith
  tally-wanted now (l ∷ ls) acc = ground (
    arith,
    tally-wanted now ls (tally_one now l acc),
    tally_one-wanted j now l acc,
    tally_one-config now l acc,
  )

  tally-view :
      (now : ℕ) (ls : List ListenerInfo) (acc : Tally)
      → view_at j (tally now ls acc).2 ≡ view_at j acc.2
  unfolding tally
  tally-view now [] acc = refl
  tally-view now (l ∷ ls) acc = tally-view now ls (tally_one now l acc) ∙ tally_one-view j now l acc

-- The loop over c.mirrors opens nothing.
abbrev settled : ℕ → Option (ℕ × Bool) → Option (ℕ × Bool)
settled n v = reconciled n false v

settled_idem : (n : ℕ) (v : Option (ℕ × Bool)) → settled n (settled n v) ≡ settled n v
settled_idem n none = ground arith
settled_idem n (some (refs, pending)) = ground arith

module _ (j : MirrorKey) where
  settle_entry-some :
      (n : ℕ) (key : MirrorKey) (e : MirrorEntry) (c : Client)
      → lookup key c.mirrors ≡ some e
      → view_at j (settle_entry n key (some e) c)
        ≡ (if key == j then settled n (view_at j c) else view_at j c)
  unfolding settle_entry
  settle_entry-some n key e c q = ground (
    arith,
    key_beq_iff key j,
    view-close_mirror j key e c,
    view-set j key (record e { pending = false; refs = n }) c,
  )

  settle_entry-view :
      (n : ℕ) (key : MirrorKey) (c : Client)
      → view_at j (settle_entry n key (lookup key c.mirrors) c)
        ≡ (if key == j then settled n (view_at j c) else view_at j c)
  unfolding settle_entry
  settle_entry-view n key c = elim (Option-cases (lookup key c.mirrors)) [
    | inl q ↦ ground (arith, key_beq_iff key j)
    | inr (e, q) ↦ ground (arith, settle_entry-some n key e c q)
  ]

  settle-view :
      (want : List (MirrorKey × ℕ)) (ks : List MirrorKey) (c : Client)
      → view_at j (settle want ks c)
        ≡ (if contains j ks then settled (wanted want j) (view_at j c) else view_at j c)
  unfolding settle contains
  settle-view want [] c = refl
  settle-view want (k ∷ ks) c = ground (
    arith,
    key_beq_iff k j,
    settled_idem (wanted want j) (view_at j c),
    settle_entry-view (wanted want k) k c,
    settle-view want ks (settle_entry (wanted want k) k (lookup k c.mirrors) c),
  )

  open_missing_one-view :
      (m : Mac) (n : ℕ) (k : MirrorKey) (c : Client)
      → view_at j (open_missing_one m n k c) ≡ (
          if is_some (view_at j c)
          then view_at j c
          else if k == j && can_open m j
          then some (n, false)
          else none)
  unfolding open_missing_one
  open_missing_one-view m n k c = ground (arith, key_beq_iff k j, view-open_locked j m k n c)

  open_missing-view :
      (m : Mac) (want : List (MirrorKey × ℕ)) (ks : List MirrorKey) (c : Client)
      → view_at j (open_missing m want ks c) ≡ (
          if is_some (view_at j c)
          then view_at j c
          else if contains j ks && can_open m j
          then some (wanted want j, false)
          else none)
  unfolding open_missing contains
  open_missing-view m want [] c = ground arith
  open_missing-view m want (k ∷ ks) c = ground (
    arith,
    key_beq_iff k j,
    open_missing_one-view m (wanted want k) k c,
    open_missing-view m want ks (open_missing_one m (wanted want k) k c),
  )

  wanted-nil : wanted [] j ≡ 0
  unfolding wanted lookup
  wanted-nil = refl

  -- The map `want` has an entry exactly where its count is not 0.
  abbrev Counts : List (MirrorKey × ℕ) → Type 0
  Counts want = is_some (lookup j want) ≡ not (eqb (wanted want j) 0)

  tally_one-Counts :
      (now : ℕ) (l : ListenerInfo) (acc : Tally) → Counts acc.0 → Counts (tally_one now l acc).0
  unfolding tally_one wanted
  tally_one-Counts now l acc h = ground (
    arith,
    key_beq_iff (key_of l) j,
    lookup-insert (key_of l) j (wanted acc.0 (key_of l) + 1) acc.0,
  )

  tally-Counts :
      (now : ℕ) (ls : List ListenerInfo) (acc : Tally) → Counts acc.0 → Counts (tally now ls acc).0
  unfolding tally
  tally-Counts now [] acc h = h
  tally-Counts now (l ∷ ls) acc h =
      tally-Counts now ls (tally_one now l acc) (tally_one-Counts now l acc h)

  -- After a snapshot the mirror at each key is what its listeners in the snapshot ask for: none if
  -- no listener asks, but for a pending reservation, which stays; otherwise one with their number,
  -- kept if it was there and opened, if the Mac allows it, if it was not.
  pub reconcile-view :
      (m : Mac) (ls : List ListenerInfo) (c : Client)
      → view_at j (reconcile m ls c)
        ≡ reconciled (demand c.config ls j) (can_open m j) (view_at j c)
  unfolding reconcile
  reconcile-view m ls c =
      let acc = tally m.now ls ([], [], c) in
      let settled_c = settle acc.0 (keys acc.2.mirrors) acc.2 in
      ground (
        arith,
        tally-wanted j m.now ls ([], [], c),
        tally-view j m.now ls ([], [], c),
        tally-Counts m.now ls ([], [], c) (unfold lookup wanted in refl),
        wanted-nil,
        contains-keys j acc.0,
        contains-keys j acc.2.mirrors,
        settle-view acc.0 (keys acc.2.mirrors) acc.2,
        open_missing-view m acc.0 (keys acc.0) settled_c,
      )
