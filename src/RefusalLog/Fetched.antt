-- ===== src/RefusalLog/Fetched.antt =====
-- refusals.go beside ring.go: the log of an interface that fetches the daemon's ring now and then.
use mathlib.Core.List.{append-nil, append_assoc}
use drawbridge.Base.{
  ℕ, ◌≡◌, refl, sym, ◌∙◌, ap, ◌≤◌, ◌-◌, true, Option, some, List, [], ◌∷◌, ◌++◌, length, arith,
  length-append,
}
use drawbridge.Ring.{Ring, Refusal, new_ring, ring_size, snapshot, record_line}
use drawbridge.Ring.Window.{record_all, snapshot-record_all}
use drawbridge.RefusalLog.{accumulate, refusal_cap, refusal_key}
use drawbridge.RefusalLog.Fresh.{all_new, last, accumulate-overlap, drop-append_le}

-- The daemon records a batch of refusals, then the interface fetches its ring; and so on.
unfoldable pub watch : List (List Refusal) → Option Ring → List Refusal → List Refusal
watch [] r log = log
watch (batch ∷ batches) r log =
    let recorded = record_all r batch in watch batches recorded (accumulate log (snapshot recorded))

unfoldable pub concat : List (List Refusal) → List Refusal
concat [] = []
concat (batch ∷ batches) = batch ++ concat batches

-- No more refusals between two fetches than the ring holds.
unfoldable pub Timely : List (List Refusal) → Type 0
Timely [] = Unit {0}
Timely (batch ∷ batches) = (length batch ≤ ring_size) × Timely batches

record_all-append :
    (r : Option Ring) (xs ys : List Refusal)
    → record_all (record_all r xs) ys ≡ record_all r (xs ++ ys)
unfolding record_all
record_all-append r [] ys = refl
record_all-append r (x ∷ xs) ys = record_all-append (record_line r x.at x.id x.line) xs ys

all_new-shorter :
    (seen : List (List ℕ)) (xs ys : List Refusal)
    → all_new seen (xs ++ ys) ≡ true
    → all_new seen xs ≡ true
unfolding all_new
all_new-shorter seen [] ys h = refl
all_new-shorter seen (x ∷ xs) ys h = ground (arith, h, all_new-shorter (refusal_key x ∷ seen) xs ys)

fetched :
    (xs batch : List Refusal)
    → length batch ≤ ring_size
    → all_new [] (xs ++ batch) ≡ true
    → accumulate (last refusal_cap xs) (snapshot (record_all (some new_ring) (xs ++ batch)))
      ≡ last refusal_cap (xs ++ batch)
fetched xs batch le h =
    let d = length (xs ++ batch) - ring_size in
    ap (accumulate (last refusal_cap xs)) (
      snapshot-record_all (xs ++ batch)
      ∙ drop-append_le d xs batch (omega (arith, length-append xs batch)))
    ∙ accumulate-overlap xs batch d (omega (arith, length-append xs batch)) h

watch-last :
    (xs : List Refusal) (batches : List (List Refusal))
    → Timely batches
    → all_new [] (xs ++ concat batches) ≡ true
    → watch batches (record_all (some new_ring) xs) (last refusal_cap xs)
      ≡ last refusal_cap (xs ++ concat batches)
unfolding watch concat Timely
watch-last xs [] t h = ap (λ (zs : List Refusal). last refusal_cap zs) (sym (append-nil xs))
watch-last xs (batch ∷ batches) (le, t) h =
    let now = xs ++ batch in
    let whole : now ++ concat batches ≡ xs ++ (batch ++ concat batches) = append_assoc xs batch _ in
    let new : all_new [] (now ++ concat batches) ≡ true = rw whole h in
    rw
      (
        record_all-append (some new_ring) xs batch,
        fetched xs batch le (all_new-shorter [] now (concat batches) new),
        sym whole,
      )
      (watch-last now batches t new)

-- If no two refusals of a daemon's life have the same time, name and line, and no more than 32 come
-- between two fetches, the log that the interface keeps is exactly the last 512 of all the refusals
-- that the daemon recorded, in their order: overlapping rings add nothing twice and lose nothing.
pub watch-accumulates :
    (batches : List (List Refusal))
    → Timely batches
    → all_new [] (concat batches) ≡ true
    → watch batches (some new_ring) [] ≡ last refusal_cap (concat batches)
unfolding record_all
watch-accumulates batches t h = watch-last [] batches t h
