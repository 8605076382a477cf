-- ===== src/OciRuntime/Profile.antt =====
-- mutate.go: the profile before and after an injection.
use mathlib.Core.List.{append-nil}
use drawbridge.Base.{
  String, ◌≡◌, refl, ◌∙◌, ap, inl, inr, Option, none, some, [], ◌∷◌, ◌++◌, arith, if◌then◌else◌,
  Bool-cases,
}
use drawbridge.Base.Eq.{◌==◌, string_eq}
use drawbridge.OciRuntime.Json.{
  Fields, text, array, object, nil, cons, field_of, with_field, as_object, as_array, as_text,
  append, field_of-with_field,
}
use drawbridge.OciRuntime.Stance.{notify_rule, syscall_rules, default_action}
use drawbridge.OciRuntime.Mutate.{
  stripped, strip_bind, with_listener, arbitrated, transparent, linux_of, with_seccomp,
}
use drawbridge.OciRuntime.Rules.{
  nameless, rules_for, stripped-other, stripped-bind, rules_for-append, rules_for-notify_rule,
}
use drawbridge.OciRuntime.Injected.{seccomp_in, profile_of, rules_under, default_under}

-- The profile that an injection writes.
unfoldable pub edited : String → String → Option Fields → Fields
edited path metadata none = transparent path metadata
edited path metadata (some sec) = arbitrated path metadata sec

syscall_rules-strip_bind :
    (sec : Fields) → syscall_rules (strip_bind sec) ≡ stripped (syscall_rules sec)
unfolding strip_bind syscall_rules as_array
syscall_rules-strip_bind sec =
    rw
      (field_of-with_field "syscalls" "syscalls"
        (array (stripped (as_array (field_of "syscalls" sec)))) sec)
      refl

-- Field by field, what an arbitrated profile is.
pub field_of-arbitrated :
    (path metadata key : String) (sec : Fields)
    → field_of key (arbitrated path metadata sec) ≡ (
        if "listenerMetadata" == key
        then some (text metadata)
        else if "listenerPath" == key
        then some (text path)
        else if "syscalls" == key
        then some (array (append (stripped (syscall_rules sec)) (cons (object notify_rule) nil)))
        else field_of key sec)
unfolding arbitrated with_listener
field_of-arbitrated path metadata key sec =
    let bare = strip_bind sec in
    let rules = array (append (syscall_rules bare) (cons (object notify_rule) nil)) in
    let listed = with_field "syscalls" rules bare in
    let located = with_field "listenerPath" (text path) listed in
    rw
      (
        field_of-with_field "listenerMetadata" key (text metadata) located,
        field_of-with_field "listenerPath" key (text path) listed,
        field_of-with_field "syscalls" key rules bare,
        syscall_rules-strip_bind sec,
      )
      (unfold strip_bind in
        rw (field_of-with_field "syscalls" key (array (stripped (syscall_rules sec))) sec)
          (ground arith))

syscall_rules-arbitrated :
    (path metadata : String) (sec : Fields)
    → syscall_rules (arbitrated path metadata sec)
      ≡ append (stripped (syscall_rules sec)) (cons (object notify_rule) nil)
unfolding syscall_rules as_array
syscall_rules-arbitrated path metadata sec =
    rw (field_of-arbitrated path metadata "syscalls" sec) refl

rules_for-arbitrated :
    (path metadata call : String) (sec : Fields)
    → rules_for call (syscall_rules (arbitrated path metadata sec))
      ≡ rules_for call (stripped (syscall_rules sec))
        ++ (if call == "bind" then nameless notify_rule ∷ [] else [])
rules_for-arbitrated path metadata call sec =
    ap (rules_for call) (syscall_rules-arbitrated path metadata sec)
    ∙ rules_for-append call (stripped (syscall_rules sec)) (cons (object notify_rule) nil)
    ∙ ap (◌++◌ (rules_for call (stripped (syscall_rules sec)))) (rules_for-notify_rule call)

pub rules_under-edited :
    (path metadata call : String) (o : Option Fields)
    → rules_under call (some (edited path metadata o))
      ≡ (if call == "bind" then nameless notify_rule ∷ [] else rules_under call o)
unfolding edited rules_under
rules_under-edited path metadata call none =
    unfold transparent syscall_rules as_array field_of in rules_for-notify_rule call
rules_under-edited path metadata call (some sec) =
    rules_for-arbitrated path metadata call sec ∙ elim (Bool-cases (call == "bind")) [
      | inl q ↦
          rw (q, (string_eq.equal_iff call "bind").0 q, stripped-bind (syscall_rules sec)) refl
      | inr q ↦
          rw (q, stripped-other call (syscall_rules sec) q)
            (append-nil (rules_for call (syscall_rules sec)))
    ]

pub default_under-edited :
    (path metadata : String) (o : Option Fields)
    → default_under (some (edited path metadata o)) ≡ default_under o
unfolding edited default_under default_action transparent field_of as_text
default_under-edited path metadata none = refl
default_under-edited path metadata (some sec) =
    rw (field_of-arbitrated path metadata "defaultAction" sec) refl

pub profile_of-with_seccomp : (sec spec : Fields) → profile_of (with_seccomp sec spec) ≡ some sec
unfolding profile_of with_seccomp seccomp_in as_object
profile_of-with_seccomp sec spec =
    rw
      (
        field_of-with_field "linux" "linux"
            (object (with_field "seccomp" (object sec) (linux_of spec))) spec,
        field_of-with_field "seccomp" "seccomp" (object sec) (linux_of spec),
      )
      refl
