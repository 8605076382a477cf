-- ===== src/Hub/Order.antt =====
-- Lists of listeners that differ in their order, as a `range` over tracker.go's set may give them.
use mathlib.Core.List.{Permᴰ}
use mathlib.Core.List.Permᴰ
use mathlib.Core.List.Permᴰ.{nil, cons, swap, trans}
use mathlib.Core.Path.{subst, subst₂}
use drawbridge.Base.{◌≡◌, refl, sym, ◌∙◌, true, List, [], ◌∷◌, arith, Bool-cases, inl, inr}
use drawbridge.Base.Eq.{contains}
use drawbridge.Base.Sets.{remove}
use drawbridge.Mirror.Types.{ListenerInfo, MirrorKey, Config}
use drawbridge.Mirror.Guest.{listener_beq, listener_beq_iff, remove_one}
use drawbridge.Mirror.Reconcile.{demand}
use drawbridge.Hub.{listener_eq}

pub remove-remove_one : (l : ListenerInfo) (xs : List ListenerInfo) → remove l xs ≡ remove_one l xs
unfolding remove remove_one
remove-remove_one l [] = refl
remove-remove_one l (x ∷ xs) = ground (arith, remove-remove_one l xs)

same_listener : (a b l : ListenerInfo) → listener_beq a l ≡ true → listener_beq b l ≡ true → a ≡ b
same_listener a b l p q = (listener_beq_iff a l).0 p ∙ sym ((listener_beq_iff b l).0 q)

remove_one-cons :
    (l a : ListenerInfo) (xs ys : List ListenerInfo)
    → Permᴰ xs ys
    → Permᴰ (remove_one l xs) (remove_one l ys)
    → Permᴰ (remove_one l (a ∷ xs)) (remove_one l (a ∷ ys))
unfolding remove_one
remove_one-cons l a xs ys p q = elim (Bool-cases (listener_beq a l)) [
  | inl e ↦ rw e p
  | inr e ↦ rw e (cons refl q)
]

remove_one-swap :
    (l a b : ListenerInfo) (xs : List ListenerInfo)
    → Permᴰ (remove_one l (a ∷ b ∷ xs)) (remove_one l (b ∷ a ∷ xs))
unfolding remove_one
remove_one-swap l a b xs = elim (Bool-cases (listener_beq a l)) [
  | inl e ↦ elim (Bool-cases (listener_beq b l)) [
    | inl d ↦ rw (e, d) (cons (same_listener b a l d e) (Permᴰ.refl xs))
    | inr d ↦ rw (e, d) (Permᴰ.refl (b ∷ xs))
  ]
  | inr e ↦ elim (Bool-cases (listener_beq b l)) [
    | inl d ↦ rw (e, d) (Permᴰ.refl (a ∷ xs))
    | inr d ↦ rw (e, d) (swap refl refl)
  ]
]

-- The order does not matter to what a removal leaves.
pub remove_one-Permᴰ :
    (l : ListenerInfo) {xs ys : List ListenerInfo}
    → Permᴰ xs ys
    → Permᴰ (remove_one l xs) (remove_one l ys)
remove_one-Permᴰ l nil = Permᴰ.refl _
remove_one-Permᴰ l (cons {a = a} {b = b} {l₁ = xs} {l₂ = ys} e p) =
    subst (λ c. Permᴰ (remove_one l (a ∷ xs)) (remove_one l (c ∷ ys))) e
      (remove_one-cons l a xs ys p (remove_one-Permᴰ l p))
remove_one-Permᴰ l (swap {a = a} {b = b} {l = xs} e f) =
    subst₂ (λ x y. Permᴰ (remove_one l (a ∷ b ∷ xs)) (remove_one l (x ∷ y ∷ xs))) f e
      (remove_one-swap l a b xs)
remove_one-Permᴰ l (trans p q) = trans (remove_one-Permᴰ l p) (remove_one-Permᴰ l q)

-- Nor does it to the demand at a key.
pub demand-Permᴰ :
    (cfg : Config) (j : MirrorKey) {xs ys : List ListenerInfo}
    → Permᴰ xs ys
    → demand cfg xs j ≡ demand cfg ys j
unfolding demand
demand-Permᴰ cfg j nil = refl
demand-Permᴰ cfg j (cons {a = a} {l₁ = xs} {l₂ = ys} e p) =
    subst (λ c. demand cfg (a ∷ xs) j ≡ demand cfg (c ∷ ys) j) e
      (ground (arith, demand-Permᴰ cfg j p))
demand-Permᴰ cfg j (swap {a = a} {b = b} {l = xs} e f) =
    subst₂ (λ x y. demand cfg (a ∷ b ∷ xs) j ≡ demand cfg (x ∷ y ∷ xs) j) f e (ground arith)
demand-Permᴰ cfg j (trans p q) = demand-Permᴰ cfg j p ∙ demand-Permᴰ cfg j q

-- Nor to what the list holds.
pub contains-Permᴰ :
    (l : ListenerInfo) {xs ys : List ListenerInfo} → Permᴰ xs ys → contains l xs ≡ contains l ys
unfolding contains
contains-Permᴰ l nil = refl
contains-Permᴰ l (cons {a = a} {l₁ = xs} {l₂ = ys} e p) =
    subst (λ c. contains l (a ∷ xs) ≡ contains l (c ∷ ys)) e (ground (arith, contains-Permᴰ l p))
contains-Permᴰ l (swap {a = a} {b = b} {l = xs} e f) =
    subst₂ (λ x y. contains l (a ∷ b ∷ xs) ≡ contains l (x ∷ y ∷ xs)) f e (ground arith)
contains-Permᴰ l (trans p q) = contains-Permᴰ l p ∙ contains-Permᴰ l q
