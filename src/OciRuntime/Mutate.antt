-- ===== src/OciRuntime/Mutate.antt =====
-- mutate.go: the edit of a spec, and MutateConfig.
use drawbridge.Base.{ℕ, String, Bool, false, Option, none, some, List, if◌then◌else◌}
use drawbridge.Base.Eq.{◌==◌, string_eq}
use drawbridge.OciRuntime.Json.{
  Json, Items, Fields, text, array, object, nil, cons, end, field, field_of, with_field, as_object,
  append,
}
use drawbridge.OciRuntime.Stance.{
  Refusal, Stance, act_allow, annotation, confined, has_network_namespace, is_named, is_nil,
  names_contain, names_of, notify_rule, opt_out_annotation, refuses, seccomp_of, syscall_rules,
  unconfined,
}

unfoldable pub without_bind : Items → Items
without_bind nil = nil
without_bind (cons n ns) =
    let rest = without_bind ns in if is_named "bind" n then rest else cons n rest

-- A rule that names bind: its other names, or nothing where it has none.
unfoldable pub stripped_rule : Fields → Items → Items
stripped_rule rule kept =
    let rest = without_bind (names_of rule) in
    if is_nil rest then kept else cons (object (with_field "names" (array rest) rule)) kept

unfoldable pub keep_rule : Json → Option Fields → Items → Items
keep_rule r none kept = cons r kept
keep_rule r (some rule) kept =
    if names_contain "bind" rule then stripped_rule rule kept else cons r kept

unfoldable pub stripped : Items → Items
stripped nil = nil
stripped (cons r rs) = keep_rule r (as_object (some r)) (stripped rs)

-- The assignment of a nil slice stands as an empty one: only the encoding tells them apart, and a
-- rule is appended before it.
unfoldable pub strip_bind : Fields → Fields
strip_bind sec = with_field "syscalls" (array (stripped (syscall_rules sec))) sec

unfoldable pub with_listener : String → String → Fields → Fields
with_listener path metadata sec =
    with_field "listenerMetadata" (text metadata) (with_field "listenerPath" (text path) sec)

unfoldable pub arbitrated : String → String → Fields → Fields
arbitrated path metadata sec =
    let bare = strip_bind sec in
    with_listener path metadata (
      with_field "syscalls" (array (append (syscall_rules bare) (cons (object notify_rule) nil)))
        bare)

unfoldable pub transparent : String → String → Fields
transparent path metadata = field "defaultAction" (text act_allow) (
    field "syscalls" (array (cons (object notify_rule) nil))
      (field "listenerPath" (text path) (field "listenerMetadata" (text metadata) end)))

abbrev pub or_fresh : Option Fields → Fields
or_fresh none = end
or_fresh (some sub) = sub

-- ensureMap and the assignment into the map that it returns.
unfoldable pub linux_of : Fields → Fields
linux_of spec = or_fresh (as_object (field_of "linux" spec))

unfoldable pub with_seccomp : Fields → Fields → Fields
with_seccomp sec spec =
    with_field "linux" (object (with_field "seccomp" (object sec) (linux_of spec))) spec

pub data Reason : Type 0 where
  opted_out private_netns : Reason
  refused : Refusal → Reason

-- The new spec, or why the bundle stays as it is.
pub data Decision : Type 0 where
  stays : Reason → Decision
  injects : Fields → Decision

unfoldable pub injected_at : String → String → Fields → Stance → Decision
injected_at path metadata spec unconfined = injects (with_seccomp (transparent path metadata) spec)
injected_at path metadata spec (confined sec) =
    injects (with_seccomp (arbitrated path metadata sec) spec)
injected_at path metadata spec (refuses why) = stays (refused why)

unfoldable pub opts_out : Option String → Bool
opts_out none = false
opts_out (some v) = v == "false"

unfoldable pub decide : String → String → Fields → Decision
decide path metadata spec =
    if opts_out (annotation opt_out_annotation spec)
    then stays opted_out
    else if has_network_namespace spec
    then stays private_netns
    else injected_at path metadata spec (seccomp_of spec)

-- json.Unmarshal into a map[string]any, where `some none` is the nil map that the text `null` gives,
-- and json.Marshal.
pub record Codec : Type 0 where
  pub unmarshal : List ℕ → Option (Option Fields)
  pub marshal : Fields → Option (List ℕ)

-- The results of MutateConfig: an error, the raw text with a reason, the new text; or a panic, for
-- an assignment into the nil map.
pub data Outcome : Type 0 where
  bad_config bad_spec panics : Outcome
  unchanged : List ℕ → Reason → Outcome
  injected : List ℕ → Outcome

unfoldable pub encoded : Option (List ℕ) → Outcome
encoded none = bad_spec
encoded (some out) = injected out

module _ (codec : Codec) where
  unfoldable pub written : List ℕ → Decision → Outcome
  written raw (stays why) = unchanged raw why
  written raw (injects spec) = encoded (codec.marshal spec)

  unfoldable pub decided : List ℕ → String → String → Option (Option Fields) → Outcome
  decided raw path metadata none = bad_config
  decided raw path metadata (some none) = panics
  decided raw path metadata (some (some spec)) = written raw (decide path metadata spec)

  unfoldable pub mutate_config : List ℕ → String → String → Outcome
  mutate_config raw path metadata = decided raw path metadata (codec.unmarshal raw)
