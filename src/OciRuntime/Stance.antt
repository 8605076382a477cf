-- ===== src/OciRuntime/Stance.antt =====
-- mutate.go: what a spec says of the network, of the annotation and of bind.
use drawbridge.Base.{String, Bool, true, false, not, ◌&&◌, ◌||◌, Option, none, some, if◌then◌else◌}
use drawbridge.Base.Eq.{◌==◌, string_eq}
use drawbridge.OciRuntime.Json.{
  Json, Items, Fields, text, array, nil, cons, end, field, field_of, as_object, as_array, as_text,
  or_empty,
}

abbrev pub opt_out_annotation : String
opt_out_annotation = "dev.drawbridge.arbitrate"

abbrev pub act_allow : String
act_allow = "SCMP_ACT_ALLOW"

abbrev pub act_log : String
act_log = "SCMP_ACT_LOG"

abbrev pub act_notify : String
act_notify = "SCMP_ACT_NOTIFY"

unfoldable pub notify_rule : Fields
notify_rule = field "names" (array (cons (text "bind") nil)) (field "action" (text act_notify) end)

unfoldable pub syscall_rules : Fields → Items
syscall_rules sec = as_array (field_of "syscalls" sec)

unfoldable pub is_named : String → Json → Bool
is_named name j = or_empty (as_text (some j)) == name

unfoldable pub any_named : String → Items → Bool
any_named name nil = false
any_named name (cons n ns) = is_named name n || any_named name ns

unfoldable pub names_of : Fields → Items
names_of rule = as_array (field_of "names" rule)

unfoldable pub names_contain : String → Fields → Bool
names_contain name rule = any_named name (names_of rule)

unfoldable pub is_network : Option Fields → Bool
is_network none = false
is_network (some m) = or_empty (as_text (field_of "type" m)) == "network"

unfoldable pub any_network : Items → Bool
any_network nil = false
any_network (cons ns rest) = is_network (as_object (some ns)) || any_network rest

unfoldable pub linux_has_network : Option Fields → Bool
linux_has_network none = false
linux_has_network (some linux) = any_network (as_array (field_of "namespaces" linux))

unfoldable pub has_network_namespace : Fields → Bool
has_network_namespace spec = linux_has_network (as_object (field_of "linux" spec))

abbrev pub text_in : String → Option Fields → Option String
text_in key none = none
text_in key (some anns) = as_text (field_of key anns)

-- `none` is the second result `false`.
unfoldable pub annotation : String → Fields → Option String
annotation key spec = text_in key (as_object (field_of "annotations" spec))

-- Why a profile is left alone; the refusals of the source are sentences.
pub data Refusal : Type 0 where
  has_listener_path uses_notify default_notifies constrains_args : Refusal
  handles_bind_with : String → Refusal
  default_without_rule : String → Refusal

unfoldable pub action_of : Fields → String
action_of rule = or_empty (as_text (field_of "action" rule))

unfoldable pub notifies : Option Fields → Bool
notifies none = false
notifies (some rule) = action_of rule == act_notify

unfoldable pub any_notifies : Items → Bool
any_notifies nil = false
any_notifies (cons r rs) = notifies (as_object (some r)) || any_notifies rs

abbrev pub is_nil : Items → Bool
is_nil nil = true
is_nil (cons x xs) = false

-- A rule that names bind.
unfoldable pub bind_refusal : Fields → Option Refusal
bind_refusal rule =
    if not (action_of rule == act_allow)
    then some (handles_bind_with (action_of rule))
    else if not (is_nil (as_array (field_of "args" rule)))
    then some constrains_args
    else none

unfoldable pub rule_refusal : Option Fields → Option Refusal
rule_refusal none = none
rule_refusal (some rule) = if names_contain "bind" rule then bind_refusal rule else none

unfoldable pub names_bind : Option Fields → Bool
names_bind none = false
names_bind (some rule) = names_contain "bind" rule

-- An early return, and what follows it.
abbrev pub or_else : Option Refusal → Option Refusal → Option Refusal
or_else none later = later
or_else (some why) later = some why

-- The first refusal of the loop.
unfoldable pub bind_rules_refusal : Items → Option Refusal
bind_rules_refusal nil = none
bind_rules_refusal (cons r rs) = or_else (rule_refusal (as_object (some r))) (bind_rules_refusal rs)

-- bindRules > 0, where the loop came to its end.
unfoldable pub has_bind_rule : Items → Bool
has_bind_rule nil = false
has_bind_rule (cons r rs) = names_bind (as_object (some r)) || has_bind_rule rs

unfoldable pub default_action : Fields → String
default_action sec = or_empty (as_text (field_of "defaultAction" sec))

unfoldable pub default_refusal : Fields → Option Refusal
default_refusal sec =
    let da = default_action sec in
    if not (has_bind_rule (syscall_rules sec)) && not (da == act_allow) && not (da == act_log)
    then some (default_without_rule da)
    else none

unfoldable pub profile_refusal : Fields → Option Refusal
profile_refusal sec =
    if not (or_empty (as_text (field_of "listenerPath" sec)) == "")
    then some has_listener_path
    else if any_notifies (syscall_rules sec)
    then some uses_notify
    else if default_action sec == act_notify
    then some default_notifies
    else or_else (bind_rules_refusal (syscall_rules sec)) (default_refusal sec)

-- What seccompOf returns.
pub data Stance : Type 0 where
  unconfined : Stance
  confined : Fields → Stance
  refuses : Refusal → Stance

abbrev pub judged : Fields → Option Refusal → Stance
judged sec none = confined sec
judged sec (some why) = refuses why

unfoldable pub stance_of : Option Fields → Stance
stance_of none = unconfined
stance_of (some sec) = judged sec (profile_refusal sec)

unfoldable pub linux_stance : Option Fields → Stance
linux_stance none = unconfined
linux_stance (some linux) = stance_of (as_object (field_of "seccomp" linux))

unfoldable pub seccomp_of : Fields → Stance
seccomp_of spec = linux_stance (as_object (field_of "linux" spec))
