-- ===== src/OciRuntime/Runs.antt =====
-- Runs of the wrapper, and its theorems at concrete inputs.
use drawbridge.Base.{
  ℕ, ◌≡◌, ◌≢◌, refl, ◌⊎◌, true, false, none, some, List, [], ◌∷◌, if◌then◌else◌, arith,
}
use drawbridge.Base.Eq.{◌==◌, string_eq, contains}
use drawbridge.Base.Bytes.{bytes, bytes_eq, bytes_beq}
use drawbridge.OciRuntime.Json.{
  Json, Items, Fields, text, array, object, nil, cons, end, field, field_of, with_field, as_object,
  as_array, as_text, append,
}
use drawbridge.OciRuntime.Stance.{
  notify_rule, has_listener_path, annotation, opt_out_annotation, has_network_namespace,
  linux_has_network, any_network, seccomp_of, linux_stance, stance_of, profile_refusal,
  bind_rules_refusal, rule_refusal, bind_refusal, names_contain, any_named, is_named, names_of,
  syscall_rules, any_notifies, notifies, action_of, default_action, default_refusal, has_bind_rule,
  names_bind,
}
use drawbridge.OciRuntime.Mutate.{
  Codec, decide, stays, injects, refused, opts_out, injected_at, arbitrated, strip_bind, stripped,
  keep_rule, stripped_rule, without_bind, with_listener, with_seccomp, linux_of,
}
use drawbridge.OciRuntime.Injected.{profile_of, rules_under, default_under, Unrestricted}
use drawbridge.OciRuntime.Safe.{decide-injects_safely}
use drawbridge.OciRuntime.Once.{decide-once}
use drawbridge.OciRuntime.CommandLine.{
  Word, runc_runtime, crun_runtime, subcommand, create_bundle, pick, is_command,
}
use drawbridge.OciRuntime.Wrapper.{Files, World, main}
use drawbridge.OciRuntime.Starts.{
  alone, valued, words_of, well_formed, subcommand-words_of, IsOther, pick-IsOther, Leaves, Starts,
  main-execs,
}

abbrev rule : Items → Json
rule names = object (field "names" (array names) (field "action" (text "SCMP_ACT_ALLOW") end))

abbrev spec_with : Fields → Fields
spec_with sec = field "linux" (object (field "seccomp" (object sec) end)) end

-- Docker's default profile in small.
abbrev profile : Fields
profile = field "defaultAction" (text "SCMP_ACT_ERRNO") (
    field "syscalls"
      (array (
        cons (rule (cons (text "accept") (cons (text "bind") nil)))
          (cons (rule (cons (text "bind") nil)) nil)))
      end)

abbrev spec : Fields
spec = spec_with profile

abbrev new_profile : Fields
new_profile = field "defaultAction" (text "SCMP_ACT_ERRNO") (
    field "syscalls"
      (array (cons (rule (cons (text "accept") nil)) (cons (object notify_rule) nil)))
      (field "listenerPath" (text "/run/d.sock") (field "listenerMetadata" (text "m") end)))

decide_runs : decide "/run/d.sock" "m" spec ≡ injects (spec_with new_profile)
unfolding decide opts_out annotation as_object field_of has_network_namespace linux_has_network
    any_network as_array injected_at seccomp_of linux_stance stance_of profile_refusal as_text
    any_notifies syscall_rules notifies append with_field action_of any_named arbitrated
    bind_refusal bind_rules_refusal default_action default_refusal has_bind_rule is_named keep_rule
    linux_of names_bind names_contain names_of notify_rule rule_refusal strip_bind stripped
    stripped_rule with_listener with_seccomp without_bind
decide_runs = refl

-- bind takes the notify rule; accept keeps its own.
decide-injects_safely_example :
    (opts_out (annotation opt_out_annotation spec) ≡ false)
    × (has_network_namespace spec ≡ false)
    × Unrestricted (profile_of spec)
    × (rules_under "accept" (profile_of (spec_with new_profile))
        ≡ rules_under "accept" (profile_of spec))
    × (default_under (profile_of (spec_with new_profile)) ≡ default_under (profile_of spec))
decide-injects_safely_example =
    decide-injects_safely "/run/d.sock" "m" "accept" spec (spec_with new_profile) decide_runs

decide-once_runs :
    decide "/run/other.sock" "n" (spec_with new_profile) ≡ stays (refused has_listener_path)
decide-once_runs =
    decide-once "/run/d.sock" "m" "/run/other.sock" "n" spec (spec_with new_profile) refl
      decide_runs

-- crun --root /run/crun --systemd-cgroup create c1
subcommand-words_of_runs :
    subcommand crun_runtime (
      bytes "--root"
      ∷ bytes "/run/crun"
      ∷ bytes "--systemd-cgroup"
      ∷ bytes "create"
      ∷ bytes "c1"
      ∷ [])
    ≡ (bytes "create", bytes "c1" ∷ [])
unfolding words_of well_formed is_command contains bytes_beq
subcommand-words_of_runs =
    subcommand-words_of crun_runtime
      (valued (bytes "--root") (bytes "/run/crun") ∷ alone (bytes "--systemd-cgroup") ∷ [])
      (bytes "create") (bytes "c1" ∷ []) refl refl

-- /usr/sbin/runc is a link to the wrapper, and /usr/bin/runc is the runtime.
abbrev canon_of : Word → Word
canon_of p = if p == bytes "/usr/sbin/runc" then bytes "/usr/local/bin/drawbridge-runc" else p

pick-IsOther_runs :
    (pick canon_of runc_runtime [] (bytes "/usr/local/bin/drawbridge-runc") ≡ [])
    ⊎ IsOther canon_of
        (canon_of (bytes "/usr/local/bin/drawbridge-runc"))
        runc_runtime.probe
        (pick canon_of runc_runtime [] (bytes "/usr/local/bin/drawbridge-runc"))
pick-IsOther_runs = pick-IsOther canon_of runc_runtime (bytes "/usr/local/bin/drawbridge-runc")

-- Every text stands for the spec above, and 2 for the edited one.
abbrev codec : Codec
codec = record { unmarshal = λ raw. some (some spec); marshal = λ fs. some (2 ∷ []) }

abbrev world : World
world = record {
  getenv = λ k. [];
  canon = canon_of;
  self = bytes "/usr/local/bin/drawbridge-runc";
  sock = "/run/d.sock";
  metadata = "m";
  agent_answers = true;
  stats = true;
  write_fails = none;
  renames = true;
}

abbrev bundle_files : Word → Files
bundle_files bundle = record { config = some (1 ∷ []); temporary = none }

abbrev arguments : List Word
arguments = bytes "create" ∷ bytes "--bundle" ∷ bytes "/b" ∷ bytes "c1" ∷ []

some-not-none : (raw : List ℕ) → codec.unmarshal raw ≢ some none
some-not-none raw e = ground (arith, e)

main-execs_example :
    Starts world runc_runtime arguments (main codec world runc_runtime arguments bundle_files).1
    × Leaves codec world
        (bundle_files (bytes "/b"))
        (main codec world runc_runtime arguments bundle_files).0
unfolding create_bundle contains bytes_beq
main-execs_example =
    main-execs codec world runc_runtime arguments bundle_files refl (λ raw e. some-not-none raw)
