-- ===== src/OciRuntime/Once.antt =====
-- mutate.go: the fields that an edit does not write, and a second edit.
use drawbridge.Base.{String, ◌≡◌, refl, sym, ◌∙◌, ap, false, Option, none, some}
use drawbridge.Base.Eq.{◌==◌, string_eq}
use drawbridge.OciRuntime.Json.{
  Fields, field_of, with_field, as_object, as_array, as_text, object, text, field_of-with_field,
}
use drawbridge.OciRuntime.Stance.{
  opt_out_annotation, annotation, text_in, has_network_namespace, linux_has_network, any_network,
  profile_refusal, stance_of, has_listener_path,
}
use drawbridge.OciRuntime.Mutate.{
  with_seccomp, linux_of, or_fresh, stays, injects, injected_at, decide, refused, transparent,
}
use drawbridge.OciRuntime.Injected.{profile_of}
use drawbridge.OciRuntime.Profile.{edited, profile_of-with_seccomp, field_of-arbitrated}
use drawbridge.OciRuntime.Safe.{decide-injects, stance_of-profile_of}

-- The fields that an injection does not write.
pub with_seccomp-preserves :
    (sec spec : Fields) (key : String)
    → (("linux" == key) ≡ false → field_of key (with_seccomp sec spec) ≡ field_of key spec)
      × (("seccomp" == key) ≡ false
          → field_of key (linux_of (with_seccomp sec spec)) ≡ field_of key (linux_of spec))
unfolding with_seccomp linux_of as_object
with_seccomp-preserves sec spec key =
    let linux = with_field "seccomp" (object sec) (linux_of spec) in
    (
      λ ne. rw (field_of-with_field "linux" key (object linux) spec, ne) refl,
      λ ne.
          rw (field_of-with_field "linux" "linux" (object linux) spec)
            (rw (field_of-with_field "seccomp" key (object sec) (linux_of spec), ne) refl),
    )

listener_path :
    (path metadata : String) (o : Option Fields)
    → field_of "listenerPath" (edited path metadata o) ≡ some (text path)
unfolding edited transparent field_of
listener_path path metadata none = refl
listener_path path metadata (some sec) = field_of-arbitrated path metadata "listenerPath" sec

refuses_again :
    (path metadata : String) (o : Option Fields)
    → (path == "") ≡ false
    → profile_refusal (edited path metadata o) ≡ some has_listener_path
unfolding profile_refusal as_text
refuses_again path metadata o ne = rw (listener_path path metadata o, ne) refl

annotation-with_seccomp :
    (sec spec : Fields) (key : String)
    → annotation key (with_seccomp sec spec) ≡ annotation key spec
unfolding annotation
annotation-with_seccomp sec spec key =
    ap (λ o. text_in key (as_object o)) ((with_seccomp-preserves sec spec "annotations").0 refl)

has_network-or_fresh :
    (o : Option Fields)
    → linux_has_network o ≡ any_network (as_array (field_of "namespaces" (or_fresh o)))
unfolding linux_has_network any_network as_array field_of
has_network-or_fresh none = refl
has_network-or_fresh (some linux) = refl

network-with_seccomp :
    (sec spec : Fields) → has_network_namespace (with_seccomp sec spec) ≡ has_network_namespace spec
unfolding has_network_namespace linux_of
network-with_seccomp sec spec =
    has_network-or_fresh (as_object (field_of "linux" (with_seccomp sec spec)))
    ∙ ap (λ o. any_network (as_array o)) ((with_seccomp-preserves sec spec "namespaces").1 refl)
    ∙ sym (has_network-or_fresh (as_object (field_of "linux" spec)))

-- A bundle that was edited with a listener path that is not empty is not edited again, whatever path
-- the second wrapper has: the first listener keeps its notifications.
pub decide-once :
    (path metadata path' metadata' : String) (spec spec' : Fields)
    → (path == "") ≡ false
    → decide path metadata spec ≡ injects spec'
    → decide path' metadata' spec' ≡ stays (refused has_listener_path)
unfolding decide stance_of injected_at
decide-once path metadata path' metadata' spec spec' ne h =
    let (stays_in, host, e, free) = decide-injects path metadata spec spec' h in
    let sec = edited path metadata (profile_of spec) in
    rw
      (
        e,
        annotation-with_seccomp sec spec opt_out_annotation,
        stays_in,
        network-with_seccomp sec spec,
        host,
        stance_of-profile_of (with_seccomp sec spec),
        profile_of-with_seccomp sec spec,
        refuses_again path metadata (profile_of spec) ne,
      )
      refl
