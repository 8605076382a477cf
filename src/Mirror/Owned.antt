-- ===== src/Mirror/Owned.antt =====
-- The sockets of mirror.go: each mirror has its own, and no socket is open without a mirror.
use drawbridge.Base.{
  ℕ, String, ◌<◌, ◌≡◌, refl, Bool, true, not, ◌&&◌, none, some, List, [], ◌∷◌, arith, Bool-cases,
  inl, inr, eqb, keep,
}
use drawbridge.Base.Eq.{◌==◌, string_eq, nat_eq, contains}
use drawbridge.Base.Table.{lookup, insert, lookup-insert, lookup-delete}
use drawbridge.Mirror.Types.{MirrorKey, key_eq, key_beq_iff, MirrorEntry, Client, Mac}
use drawbridge.Mirror.Policy.{observe, forget, declined, note_skip}
use drawbridge.Mirror.Sockets.{register, stop, close_mirror}

-- What a handler that opens and closes nothing leaves alone.
abbrev pub Same : Client → Client → Type 0
Same c c' = (c'.mirrors ≡ c.mirrors) × (c'.open_socks ≡ c.open_socks) × (c'.next_sock ≡ c.next_sock)

pub Same-observe :
    (now : ℕ) (key : MirrorKey) (state : String) (c : Client) → Same c (observe now key state c)
unfolding observe
Same-observe now key state c = ground arith

pub Same-declined :
    (now : ℕ) (proto : String) (port : ℕ) (c : Client) → Same c (declined now proto port c).0
unfolding declined note_skip observe
Same-declined now proto port c = ground arith

pub record IsOwned (c : Client) : Type 0 where
  pub live :
      (j : MirrorKey) (e : MirrorEntry)
      → lookup j c.mirrors ≡ some e
      → (contains e.sock c.open_socks ≡ true) × (e.sock < c.next_sock)
  pub owner :
      (s : ℕ)
      → contains s c.open_socks ≡ true
      → (j : MirrorKey) × (e : MirrorEntry) × (lookup j c.mirrors ≡ some e) × (e.sock ≡ s)
  pub distinct :
      (j k : MirrorKey) (e f : MirrorEntry)
      → lookup j c.mirrors ≡ some e
      → lookup k c.mirrors ≡ some f
      → e.sock ≡ f.sock
      → j ≡ k

pub IsOwned-Same : (c c' : Client) → Same c c' → IsOwned c → IsOwned c'
IsOwned-Same c c' s h = record {
  live = λ j e q. ground (arith, h.live j e);
  owner = λ x q. let (j, e, p, r) = h.owner x (ground arith) in (j, e, ground arith, r);
  distinct = λ j k e f p q r. h.distinct j k e f (ground arith) (ground arith) r;
}

contains-keep_ne :
    (s x : ℕ) (xs : List ℕ)
    → contains s (keep (λ y. not (eqb y x)) xs) ≡ (contains s xs && not (eqb s x))
unfolding contains
contains-keep_ne s x [] = refl
contains-keep_ne s x (y ∷ ys) = ground (arith, contains-keep_ne s x ys)

module _ (c : Client) (h : IsOwned c) where
  -- A fresh socket under a key that has no mirror.
  pub register-IsOwned :
      (m : Mac) (key : MirrorKey) (n : ℕ) (pending : Bool)
      → lookup key c.mirrors ≡ none
      → IsOwned (register m key n pending c)
  unfolding register forget contains
  register-IsOwned m key n pending free =
      let e₀ : MirrorEntry = record {
        sock = c.next_sock;
        refs = n;
        pending = pending;
        since = m.now;
      } in
      record {
        live = λ j e q.
            ground (arith, key_beq_iff key j, lookup-insert key j e₀ c.mirrors, h.live j e);
        owner = λ x q. elim (Bool-cases (eqb c.next_sock x)) [
          | inl w ↦ (
            key,
            e₀,
            ground (arith, lookup-insert key key e₀ c.mirrors, key_beq_iff key key),
            ground arith,
          )
          | inr w ↦
              let (j, e, a, b) = h.owner x (ground arith) in
              (j, e, ground (arith, lookup-insert key j e₀ c.mirrors, key_beq_iff key j), b)
        ];
        distinct = λ j k e f a b s. ground (
          arith,
          key_beq_iff key j,
          key_beq_iff key k,
          lookup-insert key j e₀ c.mirrors,
          lookup-insert key k e₀ c.mirrors,
          h.live j e,
          h.live k f,
          h.distinct j k e f,
        );
      }

  pub close_mirror-IsOwned :
      (key : MirrorKey) (e : MirrorEntry)
      → lookup key c.mirrors ≡ some e
      → IsOwned (close_mirror key e c)
  unfolding close_mirror stop
  close_mirror-IsOwned key e q = record {
    live = λ j f p. ground (
      arith,
      key_beq_iff key j,
      lookup-delete key j c.mirrors,
      h.live j f,
      h.distinct key j e f q,
      contains-keep_ne f.sock e.sock c.open_socks,
    );
    owner = λ x p.
        let (j, f, a, b) = h.owner x (ground (arith, contains-keep_ne x e.sock c.open_socks)) in
        (
          j,
          f,
          ground (
            arith,
            key_beq_iff key j,
            lookup-delete key j c.mirrors,
            contains-keep_ne x e.sock c.open_socks,
          ),
          b,
        );
    distinct = λ j k f g a b s.
        ground
          (arith, lookup-delete key j c.mirrors, lookup-delete key k c.mirrors, h.distinct j k f g);
  }

  -- The same socket with another count.
  pub update-IsOwned :
      (key : MirrorKey) (e e' : MirrorEntry)
      → lookup key c.mirrors ≡ some e
      → e'.sock ≡ e.sock
      → IsOwned (record c { mirrors = insert key e' c.mirrors })
  update-IsOwned key e e' q s = record {
    live = λ j f p.
        ground
          (arith, key_beq_iff key j, lookup-insert key j e' c.mirrors, h.live key e, h.live j f);
    owner = λ x p.
        let (j, f, a, b) = h.owner x p in
        elim (Bool-cases (key == j)) [
          | inl w ↦ (
            key,
            e',
            ground (arith, lookup-insert key key e' c.mirrors, key_beq_iff key key),
            ground (arith, key_beq_iff key j),
          )
          | inr w ↦ (j, f, ground (arith, lookup-insert key j e' c.mirrors), b)
        ];
    distinct = λ j k f g a b s'. ground (
      arith,
      key_beq_iff key j,
      key_beq_iff key k,
      lookup-insert key j e' c.mirrors,
      lookup-insert key k e' c.mirrors,
      h.distinct j k f g,
      h.distinct key k e g,
      h.distinct j key f e,
    );
  }
