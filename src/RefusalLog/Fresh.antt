-- ===== src/RefusalLog/Fresh.antt =====
-- refusals.go's accumulate on rings that overlap the log.
use mathlib.Core.List.{append-nil}
use drawbridge.Base.{
  ℕ, zero, suc, ◌≡◌, refl, sym, ◌∙◌, ap, ◌≤◌, ◌+◌, ◌-◌, Bool, true, not, ◌&&◌, ◌||◌, List, [], ◌∷◌,
  ◌++◌, length, drop, arith, Bool-cases, inl, inr, ltb, length-append,
}
use drawbridge.Base.Eq.{contains}
use drawbridge.Base.Bytes.{bytes_eq}
use drawbridge.Ring.{Refusal}
use drawbridge.RefusalLog.{refusal_key, keys_of, fresh, capped, extended, accumulate, refusal_cap}

-- Every key is new: to `seen`, and to those before it in the list.
unfoldable pub all_new : List (List ℕ) → List Refusal → Bool
all_new seen [] = true
all_new seen (r ∷ rs) = not (contains (refusal_key r) seen) && all_new (refusal_key r ∷ seen) rs

unfoldable pub all_seen : List (List ℕ) → List Refusal → Bool
all_seen seen [] = true
all_seen seen (r ∷ rs) = contains (refusal_key r) seen && all_seen seen rs

abbrev pub Within : List (List ℕ) → List (List ℕ) → Type 0
Within xs ys = (k : List ℕ) → contains k xs ≡ true → contains k ys ≡ true

pub all_seen-Within :
    (seen more : List (List ℕ)) (rs : List Refusal)
    → Within seen more
    → all_seen seen rs ≡ true
    → all_seen more rs ≡ true
unfolding all_seen
all_seen-Within seen more [] w h = refl
all_seen-Within seen more (r ∷ rs) w h =
    ground (arith, w (refusal_key r), all_seen-Within seen more rs w)

Within-cons : (k : List ℕ) (seen : List (List ℕ)) → Within seen (k ∷ seen)
unfolding contains
Within-cons k seen j h = ground (arith, h)

pub all_seen_self : (rs : List Refusal) → all_seen (keys_of rs) rs ≡ true
unfolding all_seen contains
all_seen_self [] = refl
all_seen_self (r ∷ rs) = ground (
  arith,
  bytes_eq.equal_iff (refusal_key r) (refusal_key r),
  all_seen-Within (keys_of rs) (refusal_key r ∷ keys_of rs) rs
      (Within-cons (refusal_key r) (keys_of rs)) (all_seen_self rs),
)

pub all_seen-drop :
    (seen : List (List ℕ)) (d : ℕ) (rs : List Refusal)
    → all_seen seen rs ≡ true
    → all_seen seen (drop d rs) ≡ true
unfolding all_seen
all_seen-drop seen zero rs h = h
all_seen-drop seen (suc d) [] h = refl
all_seen-drop seen (suc d) (r ∷ rs) h = all_seen-drop seen d rs (ground (arith, h))

-- What the log has is passed over.
pub fresh-seen :
    (seen : List (List ℕ)) (old new : List Refusal)
    → all_seen seen old ≡ true
    → fresh seen (old ++ new) ≡ fresh seen new
unfolding fresh all_seen
fresh-seen seen [] new h = refl
fresh-seen seen (r ∷ old) new h = ground (arith, h, fresh-seen seen old new)

pub fresh-new :
    (seen : List (List ℕ)) (new : List Refusal) → all_new seen new ≡ true → fresh seen new ≡ new
unfolding fresh all_new
fresh-new seen [] h = refl
fresh-new seen (r ∷ new) h = ground (arith, h, fresh-new (refusal_key r ∷ seen) new)

-- The last entries, as the cap keeps them.
abbrev pub last : ℕ → List Refusal → List Refusal
last k xs = drop (length xs - k) xs

all_new-Within :
    (seen fewer : List (List ℕ)) (rs : List Refusal)
    → Within fewer seen
    → all_new seen rs ≡ true
    → all_new fewer rs ≡ true
unfolding all_new contains
all_new-Within seen fewer [] w h = refl
all_new-Within seen fewer (r ∷ rs) w h =
    let k = refusal_key r in
    ground (arith, h, w k, all_new-Within (k ∷ seen) (k ∷ fewer) rs (λ j q. ground (arith, w j, q)))

-- What comes after a list is new to a part of it.
pub all_new-append :
    (seen part : List (List ℕ)) (xs ys : List Refusal)
    → ((k : List ℕ) → contains k part ≡ true → (contains k (keys_of xs) || contains k seen) ≡ true)
    → all_new seen (xs ++ ys) ≡ true
    → all_new part ys ≡ true
unfolding all_new contains
all_new-append seen part [] ys w h = all_new-Within seen part ys w h
all_new-append seen part (x ∷ xs) ys w h =
    all_new-append (refusal_key x ∷ seen) part xs ys (λ k q. ground (arith, w k q))
      (ground (arith, h))

pub contains-drop :
    (k : List ℕ) (d : ℕ) (rs : List Refusal)
    → contains k (keys_of (drop d rs)) ≡ true
    → contains k (keys_of rs) ≡ true
unfolding contains
contains-drop k zero rs h = h
contains-drop k (suc d) [] h = h
contains-drop k (suc d) (r ∷ rs) h = ground (arith, contains-drop k d rs h)

pub drop-append_le :
    (d : ℕ) (xs ys : List Refusal) → d ≤ length xs → drop d (xs ++ ys) ≡ drop d xs ++ ys
drop-append_le zero xs ys h = refl
drop-append_le (suc d) [] ys h = absurd (omega arith)
drop-append_le (suc d) (x ∷ xs) ys h = drop-append_le d xs ys (omega arith)

pub drop-same : (i j : ℕ) (xs : List Refusal) → i ≡ j → drop i xs ≡ drop j xs
drop-same i j xs e = ap (λ (k : ℕ). drop k xs) e

pub drop-drop : (j d : ℕ) (xs : List Refusal) → drop d (drop j xs) ≡ drop (j + d) xs
drop-drop zero d xs = drop-same d (0 + d) xs (omega arith)
drop-drop (suc j) zero xs = drop-same (suc j) (suc j + 0) xs (omega arith)
drop-drop (suc j) (suc d) [] = drop-same (suc (j + suc d)) (suc j + suc d) [] (omega arith)
drop-drop (suc j) (suc d) (x ∷ xs) =
    drop-drop j (suc d) xs ∙ drop-same (suc (j + suc d)) (suc j + suc d) (x ∷ xs) (omega arith)

pub length-drop : (d : ℕ) (xs : List Refusal) → length (drop d xs) ≡ length xs - d
length-drop zero xs = omega arith
length-drop (suc d) [] = omega arith
length-drop (suc d) (x ∷ xs) = omega (arith, length-drop d xs)

drop-zero : (d : ℕ) (xs : List Refusal) → d ≡ 0 → drop d xs ≡ xs
drop-zero d xs e = drop-same d 0 xs e

capped-last : (out : List Refusal) → capped out ≡ last refusal_cap out
unfolding capped
capped-last out = elim (Bool-cases (ltb refusal_cap (length out))) [
  | inl q ↦ rw q refl
  | inr q ↦ rw q (sym (drop-zero (length out - refusal_cap) out (ground (arith, q))))
]

-- The last entries of the last entries and what follows.
last-last : (k : ℕ) (xs ys : List Refusal) → last k (last k xs ++ ys) ≡ last k (xs ++ ys)
last-last k xs ys =
    let j = length xs - k in
    ap (λ (zs : List Refusal). last k zs) (sym (drop-append_le j xs ys (omega arith)))
    ∙ drop-drop j (length (drop j (xs ++ ys)) - k) (xs ++ ys)
    ∙ drop-same (j + (length (drop j (xs ++ ys)) - k)) (length (xs ++ ys) - k) (xs ++ ys)
        (omega (arith, length-drop j (xs ++ ys), length-append xs ys))

pub extended-last :
    (xs new : List Refusal) → extended (last refusal_cap xs) new ≡ last refusal_cap (xs ++ new)
unfolding extended
extended-last xs [] = ap (λ (zs : List Refusal). last refusal_cap zs) (sym (append-nil xs))
extended-last xs (r ∷ new) =
    capped-last (last refusal_cap xs ++ r ∷ new) ∙ last-last refusal_cap xs (r ∷ new)

accumulate-extended :
    (log ring : List Refusal) → accumulate log ring ≡ extended log (fresh (keys_of log) ring)
unfolding accumulate extended fresh
accumulate-extended log [] = refl
accumulate-extended log (r ∷ ring) = refl

-- A ring that lists the end of what the log has seen, and then what is new.
pub accumulate-overlap :
    (xs new : List Refusal) (d : ℕ)
    → length xs - refusal_cap ≤ d
    → all_new [] (xs ++ new) ≡ true
    → accumulate (last refusal_cap xs) (drop d xs ++ new) ≡ last refusal_cap (xs ++ new)
unfolding contains
accumulate-overlap xs new d le h =
    let j = length xs - refusal_cap in
    let log = last refusal_cap xs in
    let old : drop (d - j) log ≡ drop d xs =
      drop-drop j (d - j) xs ∙ drop-same (j + (d - j)) d xs (omega arith) in
    let seen : all_seen (keys_of log) (drop d xs) ≡ true =
      rw old at (all_seen-drop (keys_of log) (d - j) log (all_seen_self log)) in
    let later : all_new (keys_of log) new ≡ true =
      all_new-append [] (keys_of log) xs new (λ k q. ground (arith, contains-drop k j xs q)) h in
    accumulate-extended log (drop d xs ++ new)
    ∙ ap (extended log)
        (fresh-seen (keys_of log) (drop d xs) new seen ∙ fresh-new (keys_of log) new later)
    ∙ extended-last xs new
