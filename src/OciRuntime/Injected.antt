-- ===== src/OciRuntime/Injected.antt =====
-- mutate.go: the profile of a spec, its rules for a system call, and seccompOf's checks of bind.
use drawbridge.Base.{
  String, ◌≡◌, refl, ◌⊎◌, inl, inr, true, false, Option, none, some, List, [], ◌∷◌, arith,
  Bool-cases, Option-cases,
}
use drawbridge.Base.Eq.{◌==◌, string_eq}
use drawbridge.OciRuntime.Json.{
  Items, Fields, null, nil, cons, field_of, as_object, as_array, as_text, or_empty,
  field_of-with_field,
}
use drawbridge.OciRuntime.Stance.{
  act_allow, act_log, syscall_rules, names_contain, action_of, is_nil, bind_refusal, rule_refusal,
  bind_rules_refusal, names_bind, has_bind_rule, default_action, default_refusal, profile_refusal,
}
use drawbridge.OciRuntime.Rules.{nameless, rule_for, rules_for}

unfoldable pub seccomp_in : Option Fields → Option Fields
seccomp_in none = none
seccomp_in (some linux) = as_object (field_of "seccomp" linux)

-- The profile of a spec; `none` where the container is unconfined.
unfoldable pub profile_of : Fields → Option Fields
profile_of spec = seccomp_in (as_object (field_of "linux" spec))

unfoldable pub rules_under : String → Option Fields → List Fields
rules_under call none = []
rules_under call (some sec) = rules_for call (syscall_rules sec)

-- An unconfined container may make every call.
unfoldable pub default_under : Option Fields → String
default_under none = act_allow
default_under (some sec) = default_action sec

-- The action of a rule that lets a call through whatever its arguments are.
abbrev pub Allows : Fields → Type 0
Allows rule = (action_of rule ≡ act_allow) × (is_nil (as_array (field_of "args" rule)) ≡ true)

unfoldable pub AllAllow : List Fields → Type 0
AllAllow [] = Unit {0}
AllAllow (rule ∷ rules) = Allows rule × AllAllow rules

-- bind is let through by every rule for it, or by the default where there is none.
abbrev pub Unrestricted : Option Fields → Type 0
Unrestricted profile =
    AllAllow (rules_under "bind" profile)
    × (rules_under "bind" profile ≡ []
        → (default_under profile ≡ act_allow) ⊎ (default_under profile ≡ act_log))

nameless-field :
    (key : String) (rule : Fields)
    → ("names" == key) ≡ false
    → field_of key (nameless rule) ≡ field_of key rule
unfolding nameless
nameless-field key rule ne = rw (field_of-with_field "names" key null rule, ne) refl

bind_refusal-Allows : (rule : Fields) → bind_refusal rule ≡ none → Allows (nameless rule)
unfolding bind_refusal action_of
bind_refusal-Allows rule h = ground (
  arith,
  h,
  nameless-field "action" rule refl,
  nameless-field "args" rule refl,
  string_eq.equal_iff (or_empty (as_text (field_of "action" rule))) act_allow,
)

rule_refusal-AllAllow :
    (rule : Option Fields) (rest : List Fields)
    → rule_refusal rule ≡ none
    → AllAllow rest
    → AllAllow (rule_for "bind" rule rest)
unfolding rule_refusal rule_for AllAllow
rule_refusal-AllAllow none rest h all = all
rule_refusal-AllAllow (some rule) rest h all = elim (Bool-cases (names_contain "bind" rule)) [
  | inl q ↦ rw q (bind_refusal-Allows rule (rw q at h), all)
  | inr q ↦ rw q all
]

bind_rules_refusal-AllAllow :
    (rs : Items) → bind_rules_refusal rs ≡ none → AllAllow (rules_for "bind" rs)
unfolding bind_rules_refusal rules_for AllAllow
bind_rules_refusal-AllAllow nil h = tt
bind_rules_refusal-AllAllow (cons r rs) h =
    elim (Option-cases (rule_refusal (as_object (some r)))) [
      | inl q ↦
          rule_refusal-AllAllow (as_object (some r)) (rules_for "bind" rs) q
            (bind_rules_refusal-AllAllow rs (rw q at h))
      | inr (why, q) ↦ absurd (ground (arith, rw q at h))
    ]

has_bind_rule-rules_for : (rs : Items) → rules_for "bind" rs ≡ [] → has_bind_rule rs ≡ false
unfolding has_bind_rule rules_for rule_for names_bind
has_bind_rule-rules_for nil h = refl
has_bind_rule-rules_for (cons r rs) h = elim (Option-cases (as_object (some r))) [
  | inl q ↦ rw q (has_bind_rule-rules_for rs (rw q at h))
  | inr (rule, q) ↦ elim (Bool-cases (names_contain "bind" rule)) [
    | inl b ↦ absurd (ground (arith, rw (q, b) at h))
    | inr b ↦ rw (q, b) (has_bind_rule-rules_for rs (rw (q, b) at h))
  ]
]

pub profile_refusal-Unrestricted :
    (sec : Fields) → profile_refusal sec ≡ none → Unrestricted (some sec)
unfolding profile_refusal default_refusal rules_under default_under
profile_refusal-Unrestricted sec h = elim (Option-cases (bind_rules_refusal (syscall_rules sec))) [
  | inl q ↦ (
    bind_rules_refusal-AllAllow (syscall_rules sec) q,
    λ bare. ground (
      arith,
      h,
      q,
      has_bind_rule-rules_for (syscall_rules sec) bare,
      string_eq.equal_iff (default_action sec) act_allow,
      string_eq.equal_iff (default_action sec) act_log,
    ),
  )
  | inr (why, q) ↦ absurd (ground (arith, h, q))
]
