-- ===== src/Snapshots/Merged.antt =====
-- applySnapshots' loops seen at one path: how many snapshots of it each list has.
use drawbridge.Base.{
  ℕ, suc, zero, String, ◌≡◌, refl, sym, ◌∙◌, ap, ◌≤◌, ◌+◌, Bool, true, false, ◌&&◌, Option, none,
  some, List, [], ◌∷◌, ◌++◌, arith, ltb, if◌then◌else◌, Bool-cases, inl, inr,
}
use drawbridge.Base.Eq.{◌==◌, string_eq}
use drawbridge.Base.Table.{lookup, insert, lookup-insert}
use drawbridge.Snapshots.{
  Snapshot, find, without, ticks, answered, Merge, placed, merged, max_missed_ticks, placed_in,
  sort_snaps,
}

module _ (p : String) where
  unfoldable pub count : List Snapshot → ℕ
  count [] = 0
  count (s ∷ ss) = if s.path == p then suc (count ss) else count ss

  pub count-append : (xs ys : List Snapshot) → count (xs ++ ys) ≡ count xs + count ys
  unfolding count
  count-append [] ys = omega arith
  count-append (x ∷ xs) ys = ground (arith, count-append xs ys)

  pub count-without :
      (path : String) (ss : List Snapshot)
      → count (without path ss) ≡ (if path == p then 0 else count ss)
  unfolding count without
  count-without path [] = ground arith
  count-without path (s ∷ ss) = ground (
    arith,
    count-without path ss,
    string_eq.equal_iff s.path path,
    string_eq.equal_iff s.path p,
    string_eq.equal_iff path p,
  )

  count-placed_in :
      (root : String) (s : Snapshot) (ss : List Snapshot)
      → count (placed_in root s ss) ≡ count (s ∷ ss)
  unfolding count placed_in
  count-placed_in root s [] = refl
  count-placed_in root s (t ∷ ts) = ground (arith, count-placed_in root s ts)

  -- Sorting loses nothing and doubles nothing.
  pub count-sort_snaps :
      (root : String) (ss : List Snapshot) → count (sort_snaps root ss) ≡ count ss
  unfolding count sort_snaps
  count-sort_snaps root [] = refl
  count-sort_snaps root (s ∷ ss) =
      ground (arith, count-placed_in root s (sort_snaps root ss), count-sort_snaps root ss)

  -- Whether the path answered usably.
  unfoldable pub answers : List (Option Snapshot) → Bool
  answers [] = false
  answers (none ∷ msg) = answers msg
  answers (some s ∷ msg) = if s.usable && s.path == p then true else answers msg

  count-put :
      (usable : Bool) (s : Snapshot) (fresh : List Snapshot)
      → count (if usable then s ∷ without s.path fresh else fresh)
        ≡ (if usable && s.path == p then 1 else count fresh)
  unfolding count
  count-put true s fresh = ground (arith, count-without s.path fresh)
  count-put false s fresh = refl

  -- The map of the answers has the path at most once.
  pub count-answered :
      (msg : List (Option Snapshot)) (fresh : List Snapshot)
      → count fresh ≤ 1
      → count (answered msg fresh) ≡ (if answers msg then 1 else count fresh)
  unfolding answered answers
  count-answered [] fresh le = refl
  count-answered (none ∷ msg) fresh le = count-answered msg fresh le
  count-answered (some s ∷ msg) fresh le =
      let put = count-put s.usable s fresh in
      count-answered msg (if s.usable then s ∷ without s.path fresh else fresh)
        (ground (arith, put))
      ∙ ground (arith, put)

  -- What one round of the loop makes of the three counts of a path.
  abbrev pub Counts : Type 0
  Counts = ℕ × ℕ × Option ℕ

  abbrev pub counts_of : Merge → Counts
  counts_of a = (count a.kept, count a.left, lookup p a.missed)

  abbrev pub moved : ℕ → Counts → Counts
  moved n (k, zero, q) =
      if ltb max_missed_ticks (n + 1) then (k, zero, q) else (suc k, zero, some (n + 1))
  moved n (k, suc l, q) = (suc k, zero, q)

  count-find-none :
      (path : String) (ss : List Snapshot) → find path ss ≡ none → (path == p) ≡ true → count ss ≡ 0
  unfolding count find
  count-find-none path [] e same = refl
  count-find-none path (s ∷ ss) e same = ground (
    arith,
    e,
    same,
    count-find-none path ss,
    string_eq.equal_iff s.path path,
    string_eq.equal_iff s.path p,
    string_eq.equal_iff path p,
  )

  count-find-some :
      (path : String) (ss : List Snapshot) (f : Snapshot)
      → find path ss ≡ some f
      → (path == p) ≡ true
      → 1 ≤ count ss
  unfolding count find
  count-find-some path [] f e same = absurd (ground (arith, e))
  count-find-some path (s ∷ ss) f e same = ground (
    arith,
    e,
    same,
    count-find-some path ss f,
    string_eq.equal_iff s.path path,
    string_eq.equal_iff s.path p,
    string_eq.equal_iff path p,
  )

  path_or : String → Option Snapshot → String
  path_or path none = path
  path_or path (some f) = f.path

  find-path :
      (path : String) (ss : List Snapshot) (f : Snapshot) → find path ss ≡ some f → f.path ≡ path
  unfolding find path_or
  find-path path [] f e = absurd (ground (arith, e))
  find-path path (s ∷ ss) f e = elim (Bool-cases (s.path == path)) [
    | inl q ↦ ap (λ o. path_or path o) (sym (rw q at e)) ∙ (string_eq.equal_iff s.path path).0 q
    | inr q ↦ find-path path ss f (rw q at e)
  ]

  count-one :
      (s : Snapshot) (xs : List Snapshot)
      → count (xs ++ s ∷ []) ≡ (if s.path == p then suc (count xs) else count xs)
  unfolding count
  count-one s xs = ground (arith, count-append xs (s ∷ []))

  moved-zero :
      (n k l : ℕ) (q : Option ℕ)
      → l ≡ 0
      → moved n (k, l, q)
        ≡ (if ltb max_missed_ticks (n + 1) then (k, l, q) else (suc k, l, some (n + 1)))
  moved-zero n k zero q e = refl
  moved-zero n k (suc l) q e = absurd (omega arith)

  moved-suc : (n k l : ℕ) (q : Option ℕ) → 1 ≤ l → moved n (k, l, q) ≡ (suc k, 0, q)
  moved-suc n k zero q e = absurd (omega arith)
  moved-suc n k (suc l) q e = refl

  unfoldable pub moved_if : Bool → ℕ → Counts → Counts
  moved_if b n c = if b then moved n c else c

  kept_counts :
      (n : ℕ) (s : Snapshot) (a : Merge)
      → counts_of (record a { missed = insert s.path (n + 1) a.missed; kept = a.kept ++ s ∷ [] })
        ≡ (if s.path == p then (suc (count a.kept), count a.left, some (n + 1)) else counts_of a)
  kept_counts n s a = elim (Bool-cases (s.path == p)) [
    | inl q ↦ rw (q, count-one s a.kept, q, lookup-insert s.path p (n + 1) a.missed, q) refl
    | inr q ↦ rw (q, count-one s a.kept, q, lookup-insert s.path p (n + 1) a.missed, q) refl
  ]

  placed-counts :
      (n : ℕ) (s : Snapshot) (a : Merge) (o : Option Snapshot)
      → find s.path a.left ≡ o
      → counts_of (placed n s o a) ≡ moved_if (s.path == p) n (counts_of a)
  unfolding placed moved_if
  placed-counts n s a none e = elim (Bool-cases (s.path == p)) [
    | inl q ↦
        let z =
          moved-zero n (count a.kept) (count a.left) (lookup p a.missed)
            (count-find-none s.path a.left e q) in
        elim (Bool-cases (ltb max_missed_ticks (n + 1))) [
          | inl t ↦ rw (t, q) (sym (rw t at z))
          | inr t ↦ rw (t, q) ((rw q at (kept_counts n s a)) ∙ sym (rw t at z))
        ]
    | inr q ↦ elim (Bool-cases (ltb max_missed_ticks (n + 1))) [
      | inl t ↦ rw (t, q) refl
      | inr t ↦ rw (t, q) (rw q at (kept_counts n s a))
    ]
  ]
  placed-counts n s a (some f) e =
      let same = find-path s.path a.left f e in
      elim (Bool-cases (s.path == p)) [
        | inl q ↦
            rw (count-one f a.kept, same, q, count-without s.path a.left, q)
              (sym (
                moved-suc n (count a.kept) (count a.left) (lookup p a.missed)
                  (count-find-some s.path a.left f e q)))
        | inr q ↦ rw (count-one f a.kept, same, q, count-without s.path a.left, q) refl
      ]

  -- The same for a path that stands `k` times among the last snapshots.
  unfoldable pub times : ℕ → ℕ → Counts → Counts
  times zero n c = c
  times (suc k) n c = times k n (moved n c)

  pub merged-counts :
      (old : List (String × ℕ)) (ss : List Snapshot) (a : Merge)
      → counts_of (merged old ss a) ≡ times (count ss) (ticks p old) (counts_of a)
  unfolding merged times count moved_if
  merged-counts old [] a = refl
  merged-counts old (s ∷ ss) a =
      let n = ticks s.path old in
      let b = placed n s (find s.path a.left) a in
      let step = placed-counts n s a (find s.path a.left) refl in
      elim (Bool-cases (s.path == p)) [
        | inl q ↦
            let own : n ≡ ticks p old =
              ap (λ x. ticks x old) ((string_eq.equal_iff s.path p).0 q) in
            let now : counts_of b ≡ moved n (counts_of a) = rw q at step in
            rw q (
              merged-counts old ss b
              ∙ ap (times (count ss) (ticks p old)) (now ∙ ap (λ j. moved j (counts_of a)) own))
        | inr q ↦
            let now : counts_of b ≡ counts_of a = rw q at step in
            rw q (merged-counts old ss b ∙ ap (times (count ss) (ticks p old)) now)
      ]
