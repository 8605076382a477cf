-- ===== src/RefusalLog/Unseen.antt =====
-- refusals.go: the count of refusals that the pane has not shown.
use mathlib.Core.List.{append_assoc}
use mathlib.Core.Path.{ap₂}
use drawbridge.Base.{
  ℕ, String, ◌≡◌, refl, sym, ◌∙◌, ap, ◌≤◌, ◌<◌, ◌+◌, ◌-◌, true, false, none, some, List, [], ◌∷◌,
  ◌++◌, length, drop, arith, length-append, drop-append, if◌then◌else◌, ltb, dec_lt,
}
use drawbridge.Base.Eq.{◌==◌, contains, string_eq}
use drawbridge.Base.Bytes.{bytes_eq}
use drawbridge.Base.Table.{lookup, insert, lookup-insert}
use drawbridge.Ring.{Refusal}
use drawbridge.RefusalLog.{
  refusal_key, keys_of, refusal_cap, newer, LogModel, log_of, unseen_from, unseen_refusals, newest,
  marked, mark_refusals_seen,
}
use drawbridge.RefusalLog.Fresh.{
  all_new, last, all_new-append, contains-drop, drop-append_le, drop-drop, drop-same, length-drop,
}

all_new-absent :
    (k : List ℕ) (seen : List (List ℕ)) (rs : List Refusal)
    → all_new seen rs ≡ true
    → contains k seen ≡ true
    → contains k (keys_of rs) ≡ false
unfolding all_new contains
all_new-absent k seen [] h q = refl
all_new-absent k seen (r ∷ rs) h q =
    ground (
      arith,
      h,
      q,
      bytes_eq.equal_iff (refusal_key r) k,
      all_new-absent k (refusal_key r ∷ seen) rs,
    )

newer-absent :
    (k : List ℕ) (rs : List Refusal) → contains k (keys_of rs) ≡ false → newer k rs ≡ none
unfolding newer contains
newer-absent k [] h = refl
newer-absent k (r ∷ rs) h = ground (arith, h, newer-absent k rs)

newer-found :
    (z : Refusal) (ps rs : List Refusal)
    → contains (refusal_key z) (keys_of rs) ≡ false
    → newer (refusal_key z) (ps ++ z ∷ rs) ≡ some (length rs)
unfolding newer
newer-found z [] rs h =
    rw
      (
        newer-absent (refusal_key z) rs h,
        (bytes_eq.equal_iff (refusal_key z) (refusal_key z)).1 refl,
      )
      refl
newer-found z (p ∷ ps) rs h = rw (newer-found z ps rs h) refl

found :
    (log : List Refusal) (k : List ℕ) (n : ℕ) → newer k log ≡ some n → unseen_from log (some k) ≡ n
unfolding unseen_from
found log k n e = rw (unseen_from, e) refl

passed :
    (log : List Refusal) (k : List ℕ) → newer k log ≡ none → unseen_from log (some k) ≡ length log
unfolding unseen_from
passed log k e = rw (unseen_from, e) refl

contains-snoc :
    (k : List ℕ) (ys : List Refusal) (z : Refusal)
    → (refusal_key z == k) ≡ true
    → contains k (keys_of (ys ++ z ∷ [])) ≡ true
unfolding contains
contains-snoc k [] z h = ground (arith, h)
contains-snoc k (y ∷ ys) z h = ground (arith, contains-snoc k ys z h)

newest-snoc : (r : Refusal) (ps : List Refusal) (z : Refusal) → newest r (ps ++ z ∷ []) ≡ z
unfolding newest
newest-snoc r [] z = refl
newest-snoc r (p ∷ ps) z = newest-snoc p ps z

abbrev pub seen_now : LogModel → Refusal → LogModel
seen_now m z = record m { refusals_seen = insert m.selected (refusal_key z) m.refusals_seen }

marked-snoc :
    (m : LogModel) (ps : List Refusal) (z : Refusal)
    → m.pane_open ≡ true
    → marked (ps ++ z ∷ []) m ≡ seen_now m z
unfolding marked newest
marked-snoc m [] z h = rw h refl
marked-snoc m (p ∷ ps) z h = rw (h, newest-snoc p ps z) refl

snoc-append :
    (ys : List Refusal) (z : Refusal) (b : List Refusal) → (ys ++ z ∷ []) ++ b ≡ ys ++ z ∷ b
snoc-append ys z b = append_assoc ys (z ∷ []) b

module _ (ys : List Refusal) (z : Refusal) (b : List Refusal)
    (distinct : all_new [] ((ys ++ z ∷ []) ++ b) ≡ true) where
  absent : contains (refusal_key z) (keys_of b) ≡ false
  unfolding contains
  absent =
      let k = refusal_key z in
      let self : (k == k) ≡ true = (bytes_eq.equal_iff k k).1 refl in
      all_new-absent k (k ∷ []) b
        (all_new-append [] (k ∷ []) (ys ++ z ∷ []) b
          (λ j q. ground (arith, contains-snoc j ys z, q)) distinct)
        (ground (arith, self))

  whole : List Refusal
  whole = (ys ++ z ∷ []) ++ b

  length-whole : length whole ≡ length ys + 1 + length b
  unfolding whole
  length-whole = omega (arith, length-append (ys ++ z ∷ []) b, length-append ys (z ∷ []))

  in_sight :
      length b < refusal_cap
      → unseen_from (last refusal_cap whole) (some (refusal_key z)) ≡ length b
  unfolding unseen_from whole
  in_sight lt =
      let j = length whole - refusal_cap in
      let split : drop j whole ≡ drop j ys ++ z ∷ b =
        ap (drop j) (snoc-append ys z b)
        ∙ drop-append_le j ys (z ∷ b) (omega (arith, length-whole)) in
      rw split
        (found (drop j ys ++ z ∷ b) (refusal_key z) (length b) (newer-found z (drop j ys) b absent))

  aged_out :
      refusal_cap ≤ length b
      → unseen_from (last refusal_cap whole) (some (refusal_key z)) ≡ refusal_cap
  unfolding unseen_from whole
  aged_out le =
      let k = refusal_key z in
      let j = length whole - refusal_cap in
      let d = length b - refusal_cap in
      let xs = ys ++ z ∷ [] in
      let rest : drop j whole ≡ drop (length b - refusal_cap) b =
        drop-same j (length xs + d) whole (omega (arith, length-whole, length-append ys (z ∷ [])))
        ∙ sym (drop-drop (length xs) d whole)
        ∙ ap (drop d) (drop-append xs b) in
      let gone : contains k (keys_of (drop (length b - refusal_cap) b)) ≡ false =
        ground (arith, contains-drop k d b, absent) in
      rw rest
        (passed (drop d b) k (newer-absent k (drop d b) gone) ∙ omega (arith, length-drop d b))

  unseen :
      unseen_from (last refusal_cap whole) (some (refusal_key z))
      ≡ (if ltb (length b) refusal_cap then length b else refusal_cap)
  unseen = elim (dec_lt (length b) refusal_cap) [
    | yes lt ↦ in_sight lt ∙ ground (arith, lt)
    | no ge ↦ aged_out (omega arith) ∙ ground (arith, ge)
  ]

log_of-lookup :
    (path : String) (log : List Refusal) (m : LogModel)
    → lookup path m.refusals ≡ some log
    → log_of path m ≡ log
unfolding log_of
log_of-lookup path log m e = rw (log_of, e) refl

-- A daemon's log holds the last 512 of its refusals, all different, when the pane shows it; `b` are
-- those that the log has taken since, and no map of a later model but `refusals` has changed. Then
-- the counter says how many came since, or 512 where more came than the log keeps.
pub unseen_refusals-since :
    (m : LogModel) (ys : List Refusal) (z : Refusal) (b : List Refusal)
    (logs : List (String × List Refusal))
    → m.pane_open ≡ true
    → all_new [] ((ys ++ z ∷ []) ++ b) ≡ true
    → log_of m.selected m ≡ last refusal_cap (ys ++ z ∷ [])
    → lookup m.selected logs ≡ some (last refusal_cap ((ys ++ z ∷ []) ++ b))
    → unseen_refusals m.selected (record (mark_refusals_seen m) { refusals = logs })
      ≡ (if ltb (length b) refusal_cap then length b else refusal_cap)
unfolding unseen_refusals log_of mark_refusals_seen whole
unseen_refusals-since m ys z b logs shows distinct shown later =
    let j = length (ys ++ z ∷ []) - refusal_cap in
    let split : drop j (ys ++ z ∷ []) ≡ drop j ys ++ z ∷ [] =
      drop-append_le j ys (z ∷ []) (omega (arith, length-append ys (z ∷ []))) in
    let marks : marked (log_of m.selected m) m ≡ seen_now m z =
      ap (λ log. marked log m) (shown ∙ split) ∙ marked-snoc m (drop j ys) z shows in
    let told : lookup m.selected (seen_now m z).refusals_seen ≡ some (refusal_key z) =
      lookup-insert m.selected m.selected (refusal_key z) m.refusals_seen
      ∙ rw ((string_eq.equal_iff m.selected m.selected).1 refl) refl in
    rw marks (
      ap₂ unseen_from (log_of-lookup m.selected _ (record (seen_now m z) { refusals = logs }) later)
        told
      ∙ unseen ys z b distinct)
