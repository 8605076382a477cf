-- ===== src/OciRuntime/Rules.antt =====
-- What a profile says of one system call, and what mutate.go's edit of the rules makes of it.
use drawbridge.Base.{
  String, ◌≡◌, refl, sym, ◌∙◌, ap, true, false, Option, none, some, List, [], ◌∷◌, ◌++◌, arith,
  if◌then◌else◌, Bool-cases, inl, inr,
}
use drawbridge.Base.Eq.{◌==◌, string_eq}
use drawbridge.OciRuntime.Json.{
  Json, Items, Fields, null, array, object, nil, cons, end, field, field_of, with_field, as_object,
  as_array, as_text, or_empty, append, field_of-with_field,
}
use drawbridge.OciRuntime.Stance.{notify_rule, is_named, any_named, names_of, names_contain, is_nil}
use drawbridge.OciRuntime.Mutate.{without_bind, stripped_rule, keep_rule, stripped}

-- A rule without its names.
unfoldable pub nameless : Fields → Fields
nameless rule = with_field "names" null rule

unfoldable pub rule_for : String → Option Fields → List Fields → List Fields
rule_for call none rest = rest
rule_for call (some rule) rest = if names_contain call rule then nameless rule ∷ rest else rest

-- The rules for a system call, in the profile's order: their actions, arguments and other fields.
unfoldable pub rules_for : String → Items → List Fields
rules_for call nil = []
rules_for call (cons r rs) = rule_for call (as_object (some r)) (rules_for call rs)

with_field-twice :
    (key : String) (a b : Json) (fs : Fields)
    → with_field key b (with_field key a fs) ≡ with_field key b fs
unfolding with_field
with_field-twice key a b end = ground (arith, string_eq.equal_iff key key)
with_field-twice key a b (field k v fs) =
    ground
      (arith, with_field-twice key a b fs, string_eq.equal_iff k key, string_eq.equal_iff key key)

names_of-with_field :
    (rest : Items) (rule : Fields) → names_of (with_field "names" (array rest) rule) ≡ rest
unfolding names_of as_array
names_of-with_field rest rule = rw (field_of-with_field "names" "names" (array rest) rule) refl

any_named-without_bind :
    (call : String) (ns : Items)
    → (call == "bind") ≡ false
    → any_named call (without_bind ns) ≡ any_named call ns
unfolding any_named without_bind is_named
any_named-without_bind call nil ne = refl
any_named-without_bind call (cons n ns) ne = ground (
  arith,
  ne,
  any_named-without_bind call ns ne,
  string_eq.equal_iff (or_empty (as_text (some n))) call,
  string_eq.equal_iff (or_empty (as_text (some n))) "bind",
  string_eq.equal_iff call "bind",
)

any_named-bind : (ns : Items) → any_named "bind" (without_bind ns) ≡ false
unfolding any_named without_bind
any_named-bind nil = refl
any_named-bind (cons n ns) = ground (arith, any_named-bind ns)

any_named-is_nil : (call : String) (ns : Items) → is_nil ns ≡ true → any_named call ns ≡ false
unfolding any_named
any_named-is_nil call nil h = refl
any_named-is_nil call (cons n ns) h = ground arith

-- A rule that names bind and loses it, as it is seen for another system call, and for bind.
stripped_rule-other :
    (call : String) (rule : Fields) (kept : Items)
    → (call == "bind") ≡ false
    → rules_for call (stripped_rule rule kept) ≡ rule_for call (some rule) (rules_for call kept)
unfolding stripped_rule rules_for rule_for names_contain nameless as_object
stripped_rule-other call rule kept ne =
    let rest = without_bind (names_of rule) in
    let same = any_named-without_bind call (names_of rule) ne in
    elim (Bool-cases (is_nil rest)) [
      | inl q ↦ rw (q, sym same ∙ any_named-is_nil call rest q) refl
      | inr q ↦
          rw
            (
              q,
              names_of-with_field rest rule,
              same,
              with_field-twice "names" (array rest) null rule,
            )
            refl
    ]

stripped_rule-bind :
    (rule : Fields) (kept : Items)
    → rules_for "bind" (stripped_rule rule kept) ≡ rules_for "bind" kept
unfolding stripped_rule rules_for rule_for names_contain as_object
stripped_rule-bind rule kept =
    let rest = without_bind (names_of rule) in
    elim (Bool-cases (is_nil rest)) [
      | inl q ↦ rw q refl
      | inr q ↦ rw (q, names_of-with_field rest rule, any_named-bind (names_of rule)) refl
    ]

-- Any rule, by whether it names bind.
keep_rule-other :
    (call : String) (r : Json) (rule : Option Fields) (kept : Items)
    → as_object (some r) ≡ rule
    → (call == "bind") ≡ false
    → rules_for call (keep_rule r rule kept) ≡ rule_for call rule (rules_for call kept)
unfolding keep_rule rules_for
keep_rule-other call r none kept e ne = rw e refl
keep_rule-other call r (some rule) kept e ne = elim (Bool-cases (names_contain "bind" rule)) [
  | inl q ↦ rw q (stripped_rule-other call rule kept ne)
  | inr q ↦ rw (q, e) refl
]

keep_rule-bind :
    (r : Json) (rule : Option Fields) (kept : Items)
    → as_object (some r) ≡ rule
    → rules_for "bind" (keep_rule r rule kept) ≡ rules_for "bind" kept
unfolding keep_rule rules_for rule_for
keep_rule-bind r none kept e = rw e refl
keep_rule-bind r (some rule) kept e = elim (Bool-cases (names_contain "bind" rule)) [
  | inl q ↦ rw q (stripped_rule-bind rule kept)
  | inr q ↦ rw (q, e, q) refl
]

-- The rules for every other system call are as they were, in their order.
pub stripped-other :
    (call : String) (rs : Items)
    → (call == "bind") ≡ false
    → rules_for call (stripped rs) ≡ rules_for call rs
unfolding stripped rules_for
stripped-other call nil ne = refl
stripped-other call (cons r rs) ne =
    keep_rule-other call r (as_object (some r)) (stripped rs) refl ne
    ∙ ap (rule_for call (as_object (some r))) (stripped-other call rs ne)

-- None is left for bind.
pub stripped-bind : (rs : Items) → rules_for "bind" (stripped rs) ≡ []
unfolding stripped rules_for
stripped-bind nil = refl
stripped-bind (cons r rs) =
    keep_rule-bind r (as_object (some r)) (stripped rs) refl ∙ stripped-bind rs

rule_for-append :
    (call : String) (rule : Option Fields) (xs ys : List Fields)
    → rule_for call rule (xs ++ ys) ≡ rule_for call rule xs ++ ys
unfolding rule_for
rule_for-append call none xs ys = refl
rule_for-append call (some rule) xs ys = elim (Bool-cases (names_contain call rule)) [
  | inl q ↦ rw q refl
  | inr q ↦ rw q refl
]

pub rules_for-append :
    (call : String) (xs ys : Items)
    → rules_for call (append xs ys) ≡ rules_for call xs ++ rules_for call ys
unfolding rules_for append
rules_for-append call nil ys = refl
rules_for-append call (cons x xs) ys =
    ap (rule_for call (as_object (some x))) (rules_for-append call xs ys)
    ∙ rule_for-append call (as_object (some x)) (rules_for call xs) (rules_for call ys)

-- The appended rule is for bind alone.
pub rules_for-notify_rule :
    (call : String)
    → rules_for call (cons (object notify_rule) nil)
      ≡ (if call == "bind" then nameless notify_rule ∷ [] else [])
unfolding rules_for rule_for names_contain names_of notify_rule any_named is_named field_of
    as_object as_array as_text
rules_for-notify_rule call =
    ground (arith, string_eq.equal_iff "bind" call, string_eq.equal_iff call "bind")
