-- ===== src/Endpoint/Canonical.antt =====
-- An endpoint's canonical spelling is read back as the endpoint.
use mathlib.Core.Path.{subst}
use drawbridge.Base.{
  ℕ, ◌+◌, ◌*◌, ◌-◌, ◌≡◌, refl, sym, ap, ◌∙◌, true, false, ◌&&◌, Option, none, some, List, [], ◌∷◌,
  ◌++◌, eqb, leb, if◌then◌else◌, is_some, arith, inl, inr, Bool-cases, Option-cases, length-append,
}
use drawbridge.Base.Bytes.{bytes_eq, cut, lacks, cut-append}
use drawbridge.Base.Numerals.{parse_uint, digits_value}
use drawbridge.Endpoint.HostPort.{
  cut_last, bracketed, at_last_colon, split_host_port, join_host_port,
}

cut_last-lacks : (sep : ℕ) (s : List ℕ) → lacks sep s ≡ true → cut_last sep s ≡ none
unfolding cut_last lacks
cut_last-lacks sep [] h = refl
cut_last-lacks sep (c ∷ s) h = ground (arith, h, cut_last-lacks sep s)

cut_last-append :
    (sep : ℕ) (x y : List ℕ) → lacks sep y ≡ true → cut_last sep (x ++ sep ∷ y) ≡ some (x, y)
unfolding cut_last
cut_last-append sep [] y h = ground (arith, cut_last-lacks sep y h)
cut_last-append sep (c ∷ x) y h = ground (arith, cut_last-append sep x y h)

lacks-append : (c : ℕ) (x y : List ℕ) → lacks c (x ++ y) ≡ (lacks c x && lacks c y)
unfolding lacks
lacks-append c [] y = ground arith
lacks-append c (a ∷ x) y = ground (arith, lacks-append c x y)

-- A byte above the digits does not occur in a number.
digits_value-lacks :
    (c acc : ℕ) (s : List ℕ)
    → leb c b'9' ≡ false
    → is_some (digits_value acc s) ≡ true
    → lacks c s ≡ true
unfolding digits_value lacks
digits_value-lacks c acc [] k h = refl
digits_value-lacks c acc (d ∷ s) k h =
    ground (arith, k, h, digits_value-lacks c (acc * 10 + (d - b'0')) s k)

parse_uint-digits_value :
    (bits : ℕ) (s : List ℕ) → is_some (parse_uint bits s) ≡ true → is_some (digits_value 0 s) ≡ true
unfolding parse_uint digits_value
parse_uint-digits_value bits [] h = refl
parse_uint-digits_value bits (c ∷ s) h = ground (arith, h)

pub parse_uint-lacks :
    (bits c : ℕ) (s : List ℕ)
    → leb c b'9' ≡ false
    → is_some (parse_uint bits s) ≡ true
    → lacks c s ≡ true
parse_uint-lacks bits c s k h = digits_value-lacks c 0 s k (parse_uint-digits_value bits s h)

-- A host that split_host_port yields has no bracket in it.
abbrev pub Unbracketed : List ℕ → Type 0
Unbracketed host = (lacks b'[' host ≡ true) × (lacks b']' host ≡ true)

-- The two sides make up the text.
abbrev Joins : ℕ → List ℕ → Option (List ℕ × List ℕ) → Type 0
Joins sep s none = true ≡ true
Joins sep s (some (x, y)) = s ≡ x ++ sep ∷ y

cut-Joins : (sep : ℕ) (s : List ℕ) → Joins sep s (cut sep s)
unfolding cut
cut-Joins sep [] = refl
cut-Joins sep (a ∷ s) = elim (Option-cases (cut sep s)) [
  | inl q ↦ rw q (if-here sep a s none refl)
  | inr (sides, q) ↦ rw q (
      if-here sep a s (some (a ∷ sides.0, sides.1))
        (ap (◌∷◌ a) (subst (Joins sep s) q (cut-Joins sep s))))
]
  where
    if-here :
        (sep a : ℕ) (s : List ℕ) (o : Option (List ℕ × List ℕ))
        → Joins sep (a ∷ s) o
        → Joins sep (a ∷ s) (if eqb a sep then some ([], s) else o)
    if-here sep a s o h = elim (Bool-cases (eqb a sep)) [
      | inl e ↦ rw e (ap (λ b. b ∷ s) (ground (arith, e)))
      | inr e ↦ rw e h
    ]

cut_last-Joins : (sep : ℕ) (s : List ℕ) → Joins sep s (cut_last sep s)
unfolding cut_last
cut_last-Joins sep [] = refl
cut_last-Joins sep (a ∷ s) = elim (Option-cases (cut_last sep s)) [
  | inl q ↦ elim (Bool-cases (eqb a sep)) [
    | inl e ↦ rw q (rw e (ap (λ b. b ∷ s) (ground (arith, e))))
    | inr e ↦ rw q (rw e refl)
  ]
  | inr (sides, q) ↦ rw q (ap (◌∷◌ a) (subst (Joins sep s) q (cut_last-Joins sep s)))
]

plain-split :
    (host port : List ℕ)
    → Unbracketed host
    → lacks b':' host ≡ true
    → lacks b'[' port ≡ true
    → lacks b']' port ≡ true
    → at_last_colon (host ++ b':' ∷ port) (some (host, port)) ≡ some (host, port)
unfolding at_last_colon lacks
plain-split [] port u h l r = ground (arith, l, r)
plain-split (c ∷ host) port u h l r =
    ground (
      arith,
      u,
      h,
      l,
      r,
      lacks-append b'[' host (b':' ∷ port),
      lacks-append b']' host (b':' ∷ port),
    )

snoc_append : (x : List ℕ) (c : ℕ) (y : List ℕ) → (x ++ c ∷ []) ++ y ≡ x ++ c ∷ y
snoc_append [] c y = refl
snoc_append (a ∷ x) c y = ap (◌∷◌ a) (snoc_append x c y)

bracketed-split :
    (host port : List ℕ)
    → Unbracketed host
    → lacks b'[' port ≡ true
    → lacks b']' port ≡ true
    → at_last_colon (b'[' ∷ (host ++ b']' ∷ b':' ∷ port)) (some (b'[' ∷ (host ++ b']' ∷ []), port))
      ≡ some (host, port)
unfolding at_last_colon bracketed lacks
bracketed-split host port u l r = ground (
  arith,
  u,
  l,
  r,
  cut-append b']' host (b':' ∷ port),
  length-append host (b']' ∷ []),
  lacks-append b'[' host (b']' ∷ b':' ∷ port),
)

pub join-split :
    (host port : List ℕ)
    → Unbracketed host
    → lacks b':' port ≡ true
    → lacks b'[' port ≡ true
    → lacks b']' port ≡ true
    → split_host_port (join_host_port host port) ≡ some (host, port)
unfolding split_host_port join_host_port
join-split host port u c l r = elim (Bool-cases (lacks b':' host)) [
  | inl h ↦ rw h (
      ap (at_last_colon (host ++ b':' ∷ port)) (cut_last-append b':' host port c)
      ∙ plain-split host port u h l r)
  | inr h ↦ rw h (
      ap (at_last_colon (b'[' ∷ (host ++ b']' ∷ b':' ∷ port))) (
        ap (λ x. cut_last b':' (b'[' ∷ x)) (sym (snoc_append host b']' (b':' ∷ port)))
        ∙ cut_last-append b':' (b'[' ∷ (host ++ b']' ∷ [])) port c)
      ∙ bracketed-split host port u l r)
]

abbrev FrontLacks : ℕ → Option (List ℕ × List ℕ) → Type 0
FrontLacks sep none = true ≡ true
FrontLacks sep (some (x, y)) = lacks sep x ≡ true

cut-FrontLacks : (sep : ℕ) (s : List ℕ) → FrontLacks sep (cut sep s)
unfolding cut lacks
cut-FrontLacks sep [] = refl
cut-FrontLacks sep (a ∷ s) = elim (Bool-cases (eqb a sep)) [
  | inl e ↦ rw e refl
  | inr e ↦ rw e (elim (Option-cases (cut sep s)) [
    | inl q ↦ rw q refl
    | inr (sides, q) ↦ rw q (ground (arith, e, subst (FrontLacks sep) q (cut-FrontLacks sep s)))
  ])
]

bracketed-Unbracketed :
    (t : List ℕ) (sides : List ℕ × List ℕ) (o : Option (List ℕ × List ℕ)) (host port : List ℕ)
    → Joins b']' t o
    → FrontLacks b']' o
    → bracketed t sides o ≡ some (host, port)
    → Unbracketed host
unfolding bracketed
bracketed-Unbracketed t sides none host port j f h = absurd (ground (arith, h))
bracketed-Unbracketed t sides (some (x, rest)) host port j f h =
    ground (arith, h, f, ap (lacks b'[') j, lacks-append b'[' x (b']' ∷ rest))

at_last_colon-Unbracketed :
    (s : List ℕ) (o : Option (List ℕ × List ℕ)) (host port : List ℕ)
    → Joins b':' s o
    → at_last_colon s o ≡ some (host, port)
    → Unbracketed host
unfolding at_last_colon
at_last_colon-Unbracketed s none host port j h = absurd (ground (arith, h))
at_last_colon-Unbracketed [] (some (x, y)) host port j h = absurd (ground (arith, h))
at_last_colon-Unbracketed (c ∷ t) (some (x, y)) host port j h = elim (Bool-cases (eqb c b'[')) [
  | inl e ↦
      bracketed-Unbracketed t (x, y) (cut b']' t) host port (cut-Joins b']' t)
        (cut-FrontLacks b']' t) (rw e at h)
  | inr e ↦ ground (
    arith,
    rw e at h,
    ap (lacks b'[') j,
    ap (lacks b']') j,
    lacks-append b'[' x (b':' ∷ y),
    lacks-append b']' x (b':' ∷ y),
  )
]

pub split_host_port-Unbracketed :
    (s host port : List ℕ) → split_host_port s ≡ some (host, port) → Unbracketed host
unfolding split_host_port
split_host_port-Unbracketed s host port h =
    at_last_colon-Unbracketed s (cut_last b':' s) host port (cut_last-Joins b':' s) h
