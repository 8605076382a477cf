-- ===== src/RefusalLog/Groups.antt =====
-- refusals.go: the log folded by name, as the grouped pane lists it.
use drawbridge.Base.{
  ℕ, suc, String, ◌≡◌, refl, ◌∙◌, ap, ◌≤◌, ◌+◌, true, false, List, [], ◌∷◌, length, keep, arith,
  ltb, if◌then◌else◌, Bool-cases, inl, inr,
}
use drawbridge.Base.Eq.{◌==◌, string_eq}
use drawbridge.Ring.{Refusal}
use drawbridge.RefusalLog.{newest}

pub record RefusalGroup : Type 0 where
  pub id : String
  pub count : ℕ
  pub first : ℕ
  pub last : ℕ
  pub last_line : String

-- The group that a name starts with, and one that takes another entry.
unfoldable pub started : Refusal → RefusalGroup
started r = record { id = r.id; count = 1; first = r.at; last = r.at; last_line = r.line }

unfoldable pub extended_by : Refusal → RefusalGroup → RefusalGroup
extended_by r g = record g { count = g.count + 1; last = r.at; last_line = r.line }

-- `idx` finds the group of the name, if there is one.
unfoldable pub folded : Refusal → List RefusalGroup → List RefusalGroup
folded r [] = started r ∷ []
folded r (g ∷ gs) =
    let rest = folded r gs in if g.id == r.id then extended_by r g ∷ gs else g ∷ rest

unfoldable pub all_folded : List Refusal → List RefusalGroup → List RefusalGroup
all_folded [] out = out
all_folded (r ∷ log) out = all_folded log (folded r out)

unfoldable pub group_in : RefusalGroup → List RefusalGroup → List RefusalGroup
group_in g [] = g ∷ []
group_in g (t ∷ ts) = let rest = group_in g ts in if ltb t.last g.last then t ∷ rest else g ∷ t ∷ ts

-- sort.SliceStable by the newest entry.
unfoldable pub by_last : List RefusalGroup → List RefusalGroup
by_last [] = []
by_last (g ∷ gs) = group_in g (by_last gs)

unfoldable pub group_refusals : List Refusal → List RefusalGroup
group_refusals log = by_last (all_folded log [])

same_other : (a b c : String) → (a == b) ≡ true → (b == c) ≡ false → (a == c) ≡ false
same_other a b c p q =
    ground (arith, p, q, string_eq.equal_iff a b, string_eq.equal_iff b c, string_eq.equal_iff a c)

same_own : (a b c : String) → (b == c) ≡ true → (a == c) ≡ (a == b)
same_own a b c p = rw ((string_eq.equal_iff b c).0 p) refl

module _ (id : String) where
  abbrev pub groups_with : List RefusalGroup → List RefusalGroup
  groups_with gs = keep (λ g. g.id == id) gs

  abbrev pub entries_with : List Refusal → List Refusal
  entries_with log = keep (λ r. r.id == id) log

  -- One group for the entries of a name: how many, the first one's time, and the newest one.
  unfoldable pub summary : List Refusal → List RefusalGroup
  summary [] = []
  summary (r ∷ rs) =
      (record {
        id = id;
        count = length (r ∷ rs);
        first = r.at;
        last = (newest r rs).at;
        last_line = (newest r rs).line;
      })
      ∷ []

  bumped : Refusal → List RefusalGroup → List RefusalGroup
  bumped r [] = started r ∷ []
  bumped r (g ∷ gs) = extended_by r g ∷ gs

  folded-other :
      (r : Refusal) (gs : List RefusalGroup)
      → (r.id == id) ≡ false
      → groups_with (folded r gs) ≡ groups_with gs
  unfolding folded started extended_by
  folded-other r [] ne = ground (arith, ne)
  folded-other r (g ∷ gs) ne = elim (Bool-cases (g.id == r.id)) [
    | inl q ↦ rw (q, same_other g.id r.id id q ne) refl
    | inr q ↦ rw q (ap (λ rest. if g.id == id then g ∷ rest else rest) (folded-other r gs ne))
  ]

  folded-own :
      (r : Refusal) (gs : List RefusalGroup)
      → (r.id == id) ≡ true
      → groups_with (folded r gs) ≡ bumped r (groups_with gs)
  unfolding folded started extended_by bumped
  folded-own r [] e = rw e refl
  folded-own r (g ∷ gs) e =
      let same = same_own g.id r.id id e in
      elim (Bool-cases (g.id == r.id)) [
        | inl q ↦ rw (q, same, q) refl
        | inr q ↦ rw (q, same, q) (folded-own r gs e)
      ]

  bumped_by : List Refusal → List RefusalGroup → List RefusalGroup
  bumped_by [] gs = gs
  bumped_by (r ∷ rs) gs = bumped_by rs (bumped r gs)

  all_folded-with :
      (log : List Refusal) (gs : List RefusalGroup)
      → groups_with (all_folded log gs) ≡ bumped_by (entries_with log) (groups_with gs)
  unfolding all_folded bumped_by
  all_folded-with [] gs = refl
  all_folded-with (r ∷ log) gs = elim (Bool-cases (r.id == id)) [
    | inl q ↦
        rw q (
          all_folded-with log (folded r gs) ∙ ap (bumped_by (entries_with log)) (folded-own r gs q))
    | inr q ↦ rw q (
        all_folded-with log (folded r gs) ∙ ap (bumped_by (entries_with log)) (folded-other r gs q))
  ]

  one_group : ℕ → ℕ → Refusal → List RefusalGroup
  one_group n first r =
      (record { id = id; count = n; first = first; last = r.at; last_line = r.line }) ∷ []

  same_count : (n k first : ℕ) (r : Refusal) → n ≡ k → one_group n first r ≡ one_group k first r
  same_count n k first r e = ap (λ j. one_group j first r) e

  bumped_by-one :
      (rs : List Refusal) (n first : ℕ) (r : Refusal)
      → bumped_by rs (one_group n first r) ≡ one_group (n + length rs) first (newest r rs)
  unfolding bumped_by bumped one_group extended_by newest
  bumped_by-one [] n first r = same_count n (n + 0) first r (omega arith)
  bumped_by-one (x ∷ rs) n first r =
      bumped_by-one rs (n + 1) first x
      ∙ same_count (n + 1 + length rs) (n + suc (length rs)) first (newest x rs) (omega arith)

  first_bumped :
      (r : Refusal) (rs : List Refusal)
      → (r.id == id) ≡ true
      → bumped_by rs (started r ∷ []) ≡ summary (r ∷ rs)
  unfolding summary started one_group
  first_bumped r rs e =
      let own : started r ∷ [] ≡ one_group 1 r.at r =
        ap (λ x. (record { id = x; count = 1; first = r.at; last = r.at; last_line = r.line }) ∷ [])
          ((string_eq.equal_iff r.id id).0 e) in
      ap (bumped_by rs) own
      ∙ bumped_by-one rs 1 r.at r
      ∙ same_count (1 + length rs) (suc (length rs)) r.at (newest r rs) (omega arith)

  bumped_by-summary :
      (log : List Refusal) → bumped_by (entries_with log) [] ≡ summary (entries_with log)
  unfolding bumped_by bumped
  bumped_by-summary [] = unfold summary in refl
  bumped_by-summary (r ∷ log) = elim (Bool-cases (r.id == id)) [
    | inl q ↦ rw q (first_bumped r (entries_with log) q)
    | inr q ↦ rw q (bumped_by-summary log)
  ]

  length-summary : (rs : List Refusal) → length (summary rs) ≤ 1
  unfolding summary
  length-summary [] = omega arith
  length-summary (r ∷ rs) = omega arith

  -- Sorting keeps the one group of a name.
  alone_in :
      (g : RefusalGroup) (gs : List RefusalGroup)
      → ((g.id == id) ≡ true → groups_with gs ≡ [])
      → groups_with (group_in g gs) ≡ groups_with (g ∷ gs)
  unfolding group_in
  alone_in g [] h = refl
  alone_in g (t ∷ ts) h = elim (Bool-cases (ltb t.last g.last)) [
    | inl q ↦
        let wrap = λ (rest : List RefusalGroup). if t.id == id then t ∷ rest else rest in
        elim (Bool-cases (g.id == id)) [
          | inl own ↦ elim (Bool-cases (t.id == id)) [
            | inl b ↦ absurd (ground (arith, rw b at (h own)))
            | inr b ↦ rw (q, own, b) ((alone_in g ts (λ e. rw b at (h own))) ∙ rw own refl)
          ]
          | inr other ↦
              rw (q, other)
                (ap wrap ((alone_in g ts (λ e. absurd (ground (arith, e, other)))) ∙ rw other refl))
        ]
    | inr q ↦ rw q refl
  ]

  none_left : (gs : List RefusalGroup) → suc (length gs) ≤ 1 → gs ≡ []
  none_left [] h = refl
  none_left (g ∷ gs) h = absurd (omega (arith, h))

  by_last-with :
      (gs : List RefusalGroup)
      → length (groups_with gs) ≤ 1
      → groups_with (by_last gs) ≡ groups_with gs
  unfolding by_last
  by_last-with [] h = refl
  by_last-with (g ∷ gs) h = elim (Bool-cases (g.id == id)) [
    | inl own ↦
        let empty : groups_with gs ≡ [] = none_left (groups_with gs) (rw own at h) in
        let rest = by_last-with gs (rw empty (omega arith)) in
        alone_in g (by_last gs) (λ e. rest ∙ empty)
        ∙ ap (λ (x : List RefusalGroup). if g.id == id then g ∷ x else x) rest
    | inr other ↦
        let rest = by_last-with gs (rw other at h) in
        alone_in g (by_last gs) (λ e. absurd (ground (arith, e, other)))
        ∙ ap (λ (x : List RefusalGroup). if g.id == id then g ∷ x else x) rest
  ]

  -- For each name: the fold has one group for it exactly if the log has an entry of it, wherever it
  -- stands, with the number of its entries, the first one's time, and the newest one's time and line.
  pub group_refusals-summary :
      (log : List Refusal) → groups_with (group_refusals log) ≡ summary (entries_with log)
  unfolding group_refusals
  group_refusals-summary log =
      let whole = all_folded-with log [] ∙ bumped_by-summary log in
      by_last-with (all_folded log []) (rw whole (length-summary (entries_with log))) ∙ whole
