-- ===== src/OciRuntime/Safe.antt =====
-- mutate.go: a spec before and after MutateConfig's edit.
use drawbridge.Base.{
  String, ◌≡◌, refl, sym, ◌∙◌, ap, inl, inr, false, Option, none, some, [], ◌∷◌, if◌then◌else◌,
  Bool-cases, Option-cases, arith,
}
use drawbridge.Base.Eq.{◌==◌, string_eq}
use drawbridge.OciRuntime.Json.{Fields, field_of, as_object}
use drawbridge.OciRuntime.Stance.{
  notify_rule, profile_refusal, stance_of, linux_stance, seccomp_of, opt_out_annotation, annotation,
  has_network_namespace,
}
use drawbridge.OciRuntime.Mutate.{
  with_seccomp, opts_out, Decision, stays, injects, injected_at, decide,
}
use drawbridge.OciRuntime.Rules.{nameless}
use drawbridge.OciRuntime.Injected.{
  seccomp_in, profile_of, rules_under, default_under, Unrestricted, AllAllow,
  profile_refusal-Unrestricted,
}
use drawbridge.OciRuntime.Profile.{
  edited, rules_under-edited, default_under-edited, profile_of-with_seccomp,
}

pub stance_of-profile_of : (spec : Fields) → seccomp_of spec ≡ stance_of (profile_of spec)
unfolding seccomp_of profile_of linux_stance seccomp_in stance_of
stance_of-profile_of spec = elim (Option-cases (as_object (field_of "linux" spec))) [
  | inl q ↦ rw q refl
  | inr (linux, q) ↦ rw q refl
]

spec_of : Fields → Decision → Fields
spec_of spec (stays why) = spec
spec_of spec (injects spec') = spec'

-- An injection with the profile `o`: what it writes, and what was checked.
injected_at-injects :
    (path metadata : String) (spec spec' : Fields) (o : Option Fields)
    → injected_at path metadata spec (stance_of o) ≡ injects spec'
    → (spec' ≡ with_seccomp (edited path metadata o) spec) × Unrestricted o
unfolding injected_at stance_of edited spec_of rules_under default_under AllAllow
injected_at-injects path metadata spec spec' none h =
    (sym (ap (spec_of spec) h), (tt, λ e. inl refl))
injected_at-injects path metadata spec spec' (some sec) h =
    elim (Option-cases (profile_refusal sec)) [
      | inl q ↦ (sym (ap (spec_of spec) (rw q at h)), profile_refusal-Unrestricted sec q)
      | inr (why, q) ↦ absurd (ground (arith, rw q at h))
    ]

-- What an injection knows of the spec.
pub decide-injects :
    (path metadata : String) (spec spec' : Fields)
    → decide path metadata spec ≡ injects spec'
    → (opts_out (annotation opt_out_annotation spec) ≡ false)
      × (has_network_namespace spec ≡ false)
      × (spec' ≡ with_seccomp (edited path metadata (profile_of spec)) spec)
      × Unrestricted (profile_of spec)
unfolding decide
decide-injects path metadata spec spec' h =
    elim (Bool-cases (opts_out (annotation opt_out_annotation spec))) [
      | inl q ↦ absurd (ground (arith, rw q at h))
      | inr q ↦ elim (Bool-cases (has_network_namespace spec)) [
        | inl n ↦ absurd (ground (arith, rw (q, n) at h))
        | inr n ↦
            let k =
              injected_at-injects path metadata spec spec' (profile_of spec)
                (rw (q, n, stance_of-profile_of spec) at h) in
            (q, n, k.0, k.1)
      ]
    ]

-- Whenever MutateConfig injects: the spec does not opt out and has no network namespace; every rule
-- for bind allowed it whatever its arguments, or there was none and the default allowed it; then, in
-- the new spec, bind has the notify rule and no other, every other system call has the rules that it
-- had, in their order, and the default is the one that it was.
pub decide-injects_safely :
    (path metadata call : String) (spec spec' : Fields)
    → decide path metadata spec ≡ injects spec'
    → (opts_out (annotation opt_out_annotation spec) ≡ false)
      × (has_network_namespace spec ≡ false)
      × Unrestricted (profile_of spec)
      × (rules_under call (profile_of spec') ≡ (
          if call == "bind" then nameless notify_rule ∷ [] else rules_under call (profile_of spec)))
      × (default_under (profile_of spec') ≡ default_under (profile_of spec))
decide-injects_safely path metadata call spec spec' h =
    let (stays_in, host, e, free) = decide-injects path metadata spec spec' h in
    let o = profile_of spec in
    let now : profile_of spec' ≡ some (edited path metadata o) =
      ap profile_of e ∙ profile_of-with_seccomp (edited path metadata o) spec in
    (
      stays_in,
      host,
      free,
      ap (rules_under call) now ∙ rules_under-edited path metadata call o,
      ap default_under now ∙ default_under-edited path metadata o,
    )
