-- ===== src/Ring/Window.antt =====
-- The ring of ring.go against the whole history of lines recorded.
use drawbridge.Base.{
  ℕ, zero, suc, ◌+◌, ◌-◌, ◌%◌, ◌≤◌, ◌<◌, ◌≡◌, ◌≢◌, refl, sym, ap, ◌∙◌, List, [], ◌∷◌, ◌++◌, Option,
  some, set, get_or, ltb, length, drop, drop-cons, drop-length, length-append, length-set,
  get_or-set_self, get_or-set_ne, get_or-append_left, get_or-append_length, arith, if◌then◌else◌,
  dec_lt,
}
use mathlib.Core.Path.{ap₂}
use mathlib.Core.List.{append-nil, append_assoc}
use native.Mathlib.Numerals.{add-one}
use drawbridge.Ring.{
  Ring, Refusal, ring_size, zero_refusal, new_ring, record_line, collect, snapshot,
}

-- Records a history, oldest first.
unfoldable pub record_all : Option Ring → List Refusal → Option Ring
record_all r [] = r
record_all r (x ∷ xs) = record_all (record_line r x.at x.id x.line) xs

-- The ring holds the last lines of the history `xs`, each at its index modulo the size.
record Holds (xs : List Refusal) (r : Ring) : Type 0 where
  counted : r.n ≡ length xs
  sized : length r.buf ≡ 32
  window :
      (i : ℕ)
      → i < length xs
      → length xs ≤ i + 32
      → get_or r.buf (i % 32) zero_refusal ≡ get_or xs i zero_refusal

new_ring-Holds : Holds [] new_ring
unfolding new_ring
new_ring-Holds = record { counted = refl; sized = refl; window = λ i h k. absurd (omega arith) }

slot_ne : (i n : ℕ) → i < n → n + 1 ≤ i + 32 → n % 32 ≢ i % 32
slot_ne i n h k = omega arith

module _ (xs : List Refusal) (r : Ring) (x : Refusal) (h : Holds xs r) where
  next_buf : List Refusal
  next_buf = set r.buf (r.n % 32) x

  window_old :
      (i : ℕ)
      → i < length xs
      → length xs + 1 ≤ i + 32
      → get_or next_buf (i % 32) zero_refusal ≡ get_or (xs ++ x ∷ []) i zero_refusal
  unfolding next_buf
  window_old i lt le =
      get_or-set_ne r.buf (r.n % 32) (i % 32) x zero_refusal
        (rw h.counted (slot_ne i (length xs) lt le))
      ∙ h.window i lt (omega arith)
      ∙ sym (get_or-append_left xs (x ∷ []) i zero_refusal lt)

  window_new :
      (i : ℕ)
      → i ≡ length xs
      → get_or next_buf (i % 32) zero_refusal ≡ get_or (xs ++ x ∷ []) i zero_refusal
  unfolding next_buf
  window_new i e =
      rw (e, h.counted)
        (get_or-set_self r.buf (length xs % 32) x zero_refusal (omega (arith, h.sized))
          ∙ sym (get_or-append_length xs x zero_refusal))

  length_next : length (xs ++ x ∷ []) ≡ length xs + 1
  length_next = length-append xs (x ∷ [])

  step-Holds : Holds (xs ++ x ∷ []) (record { buf = next_buf; n = r.n + 1 })
  unfolding next_buf
  step-Holds = record {
    counted = omega (arith, h.counted, length_next);
    sized = length-set r.buf (r.n % 32) x ∙ h.sized;
    window = λ i lt le. elim (dec_lt i (length xs)) [
      | yes old ↦ window_old i old (omega (arith, length_next))
      | no fresh ↦ window_new i (omega (arith, length_next))
    ];
  }

-- The history so far, and the lines still to come.
record_all-Holds :
    (done xs : List Refusal) (r : Ring)
    → Holds done r
    → (r' : Ring) × (record_all (some r) xs ≡ some r') × Holds (done ++ xs) r'
unfolding record_all record_line next_buf
record_all-Holds done [] r h = (r, refl, rw (append-nil done) h)
record_all-Holds done (x ∷ xs) r h =
    let (r', e, h') = record_all-Holds (done ++ x ∷ []) xs _ (step-Holds done r x h) in
    (r', e, rw (append_assoc done (x ∷ []) xs) at h')

collect-drop :
    (xs : List Refusal) (r : Ring) (i rounds : ℕ)
    → Holds xs r
    → i + rounds ≡ length xs
    → rounds ≤ 32
    → collect r.buf i rounds ≡ drop i xs
unfolding collect
collect-drop xs r i zero h e k = sym (ap (λ (j : ℕ). drop j xs) (omega arith) ∙ drop-length xs)
collect-drop xs r i (suc rounds) h e k =
    ap₂ ◌∷◌ (h.window i (omega arith) (omega arith))
      (rw (add-one i) (collect-drop xs r (suc i) rounds h (omega arith) (omega arith)))
    ∙ sym (drop-cons xs i zero_refusal (omega arith))

snapshot-Holds :
    (xs : List Refusal) (r : Ring) → Holds xs r → snapshot (some r) ≡ drop (length xs - 32) xs
unfolding snapshot
snapshot-Holds xs r h =
    let n = if ltb ring_size r.n then ring_size else r.n in
    collect-drop xs r (r.n - n) n h (ground (arith, h.counted)) (ground arith)
    ∙ ap (λ (j : ℕ). drop j xs) (ground (arith, h.counted))

-- A snapshot returns the last 32 lines recorded, oldest first, and all of them if there are fewer;
-- so it depends on nothing that was overwritten, for every history of lines.
pub snapshot-record_all :
    (xs : List Refusal) → snapshot (record_all (some new_ring) xs) ≡ drop (length xs - 32) xs
snapshot-record_all xs =
    let (r, e, h) = record_all-Holds [] xs new_ring new_ring-Holds in rw e (snapshot-Holds xs r h)
