-- ===== src/OciRuntime/Starts.antt =====
-- The wrapper of cmd/drawbridge-runc/main_linux.go: its command line, the runtime's path, and what a
-- run leaves in the bundle.
use mathlib.Core.List.{Memᴰ}
use mathlib.Core.List.Memᴰ.{head, tail}
use drawbridge.Base.{
  ℕ, ◌≡◌, ◌≢◌, refl, ap, ◌∙◌, ◌⊎◌, inl, inr, Bool, true, false, not, ◌&&◌, ◌||◌, Option, none, some,
  List, [], ◌∷◌, arith, Bool-cases,
}
use drawbridge.Base.Eq.{◌==◌, contains}
use drawbridge.Base.Bytes.{bytes_eq, bytes_beq}
use drawbridge.Base.{if◌then◌else◌}
use drawbridge.OciRuntime.Json.{Fields}
use drawbridge.OciRuntime.Mutate.{
  Codec, Outcome, encoded, written, decided, mutate_config, Decision, stays, injects, decide,
}
use drawbridge.OciRuntime.CommandLine.{
  Word, Runtime, override, is_command, subcommand_from, subcommand, create_bundle, probed, pick,
}
use drawbridge.OciRuntime.Wrapper.{
  Files, World, End, execs, no_runtime, replaced, with_agent, after_decision, try_read, try_inject,
  exec_runtime, ended, main,
}

-- A global flag: alone, or with its value as the next word.
pub data Flag : Type 0 where
  alone : Word → Flag
  valued : Word → Word → Flag

unfoldable pub words_of : List Flag → List Word → List Word
words_of [] rest = rest
words_of (alone w ∷ flags) rest = w ∷ words_of flags rest
words_of (valued w value ∷ flags) rest = w ∷ value ∷ words_of flags rest

-- Each flag begins with a dash, and takes a value exactly if the runtime's table says so.
unfoldable pub well_formed : Runtime → List Flag → Bool
well_formed rt [] = true
well_formed rt (alone w ∷ flags) =
    not (is_command w) && not (contains w rt.value_flags) && well_formed rt flags
well_formed rt (valued w value ∷ flags) =
    not (is_command w) && contains w rt.value_flags && well_formed rt flags

-- Whatever global flags come first, with whatever values: the subcommand is the first word after
-- them, if it is not empty begun by a dash, and its arguments are those that follow.
pub subcommand-words_of :
    (rt : Runtime) (flags : List Flag) (command : Word) (rest : List Word)
    → well_formed rt flags ≡ true
    → is_command command ≡ true
    → subcommand rt (words_of flags (command ∷ rest)) ≡ (command, rest)
unfolding subcommand subcommand_from words_of well_formed
subcommand-words_of rt [] command rest h c = ground (arith, c)
subcommand-words_of rt (alone w ∷ flags) command rest h c =
    ground (arith, h, subcommand-words_of rt flags command rest)
subcommand-words_of rt (valued w value ∷ flags) command rest h c =
    ground (arith, h, subcommand-words_of rt flags command rest)

-- A path that is not empty: one of the candidates, and not the wrapper under another name.
abbrev pub IsOther : (Word → Word) → Word → List Word → Word → Type 0
IsOther canon me candidates p = Memᴰ p candidates × (canon p ≢ []) × (me ≢ [] → canon p ≢ me)

weaken :
    (canon : Word → Word) (me p : Word) (ps : List Word) (x : Word)
    → (x ≡ []) ⊎ IsOther canon me ps x
    → (x ≡ []) ⊎ IsOther canon me (p ∷ ps) x
weaken canon me p ps x (inl e) = inl e
weaken canon me p ps x (inr (m, real, other)) = inr (tail m, real, other)

differ : (a b : Word) → (a == b) ≡ false → a ≢ b
differ a b h e = ground (arith, h, bytes_eq.equal_iff a b)

probed-IsOther :
    (canon : Word → Word) (me : Word) (ps : List Word)
    → (probed canon me ps ≡ []) ⊎ IsOther canon me ps (probed canon me ps)
unfolding probed
probed-IsOther canon me [] = inl refl
probed-IsOther canon me (p ∷ ps) =
    let later = weaken canon me p ps (probed canon me ps) (probed-IsOther canon me ps) in
    elim (Bool-cases (canon p == [])) [
      | inl q ↦ rw q later
      | inr q ↦ elim (Bool-cases (not (me == []) && canon p == me)) [
        | inl b ↦ rw (q, b) later
        | inr b ↦
            rw (q, b)
              (inr (
                head refl,
                λ none_there. differ (canon p) [] q none_there,
                λ known same.
                    ground (arith, b, bytes_eq.equal_iff me [], bytes_eq.equal_iff (canon p) me),
              ))
      ]
    ]

-- Without a pinned path, the runtime that the wrapper starts is none, or the path of a candidate that
-- exists and that does not lead back to the wrapper, by whatever links.
pub pick-IsOther :
    (canon : Word → Word) (rt : Runtime) (self : Word)
    → (pick canon rt [] self ≡ []) ⊎ IsOther canon (canon self) rt.probe (pick canon rt [] self)
unfolding pick bytes_beq
pick-IsOther canon rt self = probed-IsOther canon (canon self) rt.probe

-- Where no candidate is left, each is no file, or leads back to the wrapper.
probed-out :
    (canon : Word → Word) (me : Word) (ps : List Word) (p : Word)
    → contains [] ps ≡ false
    → probed canon me ps ≡ []
    → contains p ps ≡ true
    → (canon p == [] || canon p == me) ≡ true
unfolding probed contains
probed-out canon me [] p full out m = ground arith
probed-out canon me (x ∷ ps) p full out m =
    ground (arith, bytes_eq.equal_iff x p, bytes_eq.equal_iff x [], probed-out canon me ps p)

-- How a run ends that does not panic. With a pinned path that one is executed; else the path of a
-- candidate that exists and is not the wrapper under another name. Its arguments are the path and
-- then those of the wrapper. There is no runtime only if none is pinned and no candidate will do.
unfoldable pub Starts : World → Runtime → List Word → End → Type 0
Starts w rt args end =
    let pinned = override w.getenv rt.env_override in
    let me = w.canon w.self in
    ((end ≡ no_runtime)
      × (pinned ≡ [])
      × ((p : Word) → contains p rt.probe ≡ true → (w.canon p == [] || w.canon p == me) ≡ true))
    ⊎ ((real : Word) × (end ≡ execs real (real ∷ args))
        × (real ≢ [])
        × ((real ≡ pinned) ⊎ ((pinned ≡ []) × IsOther w.canon me rt.probe real)))

-- The exec of what `pick` gives.
exec_of :
    (w : World) (rt : Runtime) (args : List Word) (real : Word)
    → pick w.canon rt (override w.getenv rt.env_override) w.self ≡ real
    → exec_runtime w rt args ≡ (if real == [] then no_runtime else execs real (real ∷ args))
unfolding exec_runtime
exec_of w rt args real e = ap (λ r. if r == [] then no_runtime else execs r (r ∷ args)) e

exec_runtime-Starts :
    (w : World) (rt : Runtime) (args : List Word)
    → contains [] rt.probe ≡ false
    → Starts w rt args (exec_runtime w rt args)
unfolding Starts pick
exec_runtime-Starts w rt args full =
    let pinned = override w.getenv rt.env_override in
    let me = w.canon w.self in
    let found = probed w.canon me rt.probe in
    elim (Bool-cases (pinned == [])) [
      | inl free ↦
          let none_pinned : pinned ≡ [] = (bytes_eq.equal_iff pinned []).0 free in
          let ends = exec_of w rt args found (rw free refl) in
          elim (Bool-cases (found == [])) [
            | inl out ↦ inl (
              ends ∙ rw out refl,
              none_pinned,
              λ p m. probed-out w.canon me rt.probe p full ((bytes_eq.equal_iff found []).0 out) m,
            )
            | inr some_left ↦ elim (probed-IsOther w.canon me rt.probe) [
              | inl e ↦ absurd (differ found [] some_left e)
              | inr other ↦ inr (
                found,
                ends ∙ rw some_left refl,
                differ found [] some_left,
                inr (none_pinned, other),
              )
            ]
          ]
      | inr set ↦ inr (
        pinned,
        exec_of w rt args pinned (rw set refl) ∙ rw set refl,
        differ pinned [] set,
        inl refl,
      )
    ]

-- The new text of a config: what `decide` makes of the spec that the old one says, while the agent
-- answers.
abbrev pub IsInjected : Codec → World → Files → Files → Type 0
IsInjected codec w before after =
    (raw : List ℕ) × (spec : Fields) × (spec' : Fields) × (out : List ℕ) × (before.config
      ≡ some raw)
    × (codec.unmarshal raw ≡ some (some spec))
    × (decide w.sock w.metadata spec ≡ injects spec')
    × (codec.marshal spec' ≡ some out)
    × (w.agent_answers ≡ true)
    × (after.config ≡ some out)

abbrev pub Leaves : Codec → World → Files → Files → Type 0
Leaves codec w before after = (after.config ≡ before.config) ⊎ IsInjected codec w before after

replaced-config :
    (renames : Bool) (fails : Option (List ℕ)) (out : List ℕ) (files : Files)
    → ((replaced renames fails out files).config ≡ files.config)
      ⊎ ((replaced renames fails out files).config ≡ some out)
unfolding replaced
replaced-config renames (some partial) out files = inl refl
replaced-config true none out files = inr refl
replaced-config false none out files = inl refl

with_agent-config :
    (w : World) (out : List ℕ) (files : Files)
    → ((with_agent w out files).config ≡ files.config)
      ⊎ ((w.agent_answers ≡ true) × ((with_agent w out files).config ≡ some out))
unfolding with_agent
with_agent-config w out files = ground (arith, replaced-config w.renames w.write_fails out files)

module _ (codec : Codec) (w : World) (files : Files) where
  -- The files that an outcome leaves, without a panic.
  abbrev Goes : Outcome → Type 0
  Goes o = (after : Files) × (after_decision w files o ≡ some after) × Leaves codec w files after

  module _ (raw : List ℕ) (has : files.config ≡ some raw) where
    encoded-Goes :
        (spec spec' : Fields) (o : Option (List ℕ))
        → codec.unmarshal raw ≡ some (some spec)
        → decide w.sock w.metadata spec ≡ injects spec'
        → codec.marshal spec' ≡ o
        → Goes (encoded o)
    unfolding encoded after_decision
    encoded-Goes spec spec' none read d e = (files, refl, inl refl)
    encoded-Goes spec spec' (some out) read d e = (
      with_agent w out files,
      refl,
      elim (with_agent-config w out files) [
        | inl same ↦ inl same
        | inr (up, new) ↦ inr (raw, spec, spec', out, has, read, d, e, up, new)
      ],
    )

    written-Goes :
        (spec : Fields) (d : Decision)
        → codec.unmarshal raw ≡ some (some spec)
        → decide w.sock w.metadata spec ≡ d
        → Goes (written codec raw d)
    unfolding written after_decision
    written-Goes spec (stays why) read e = (files, refl, inl refl)
    written-Goes spec (injects spec') read e =
        encoded-Goes spec spec' (codec.marshal spec') read e refl

    decided-Goes :
        (o : Option (Option Fields))
        → codec.unmarshal raw ≡ o
        → o ≢ some none
        → Goes (decided codec raw w.sock w.metadata o)
    unfolding decided after_decision
    decided-Goes none read ok = (files, refl, inl refl)
    decided-Goes (some none) read ok = absurd (ok refl)
    decided-Goes (some (some spec)) read ok =
        written-Goes spec (decide w.sock w.metadata spec) read refl

  try_read-Leaves :
      (config : Option (List ℕ))
      → files.config ≡ config
      → ((raw : List ℕ) → files.config ≡ some raw → codec.unmarshal raw ≢ some none)
      → (after : Files) × (try_read codec w files config ≡ some after) × Leaves codec w files after
  unfolding try_read mutate_config
  try_read-Leaves none has ok = (files, refl, inl refl)
  try_read-Leaves (some raw) has ok = decided-Goes raw has (codec.unmarshal raw) refl (ok raw has)

-- Unless the bundle's config.json is one that decodes to the nil map (`null`), which makes the wrapper
-- panic, whatever fails on the way: the wrapper executes the pinned runtime, or else a candidate that
-- exists and is not the wrapper itself, with that path and exactly the arguments that it was given; it
-- says that there is no runtime only if none is pinned and no candidate will do; and config.json is as
-- it was, or, while the agent answers, all of the text of what MutateConfig makes of it. No candidate
-- is the empty path.
pub main-execs :
    (codec : Codec) (w : World) (rt : Runtime) (args : List Word) (bundle_files : Word → Files)
    → contains [] rt.probe ≡ false
    → (let files = bundle_files (create_bundle rt args).1 in
        (raw : List ℕ) → files.config ≡ some raw → codec.unmarshal raw ≢ some none)
    → let before = bundle_files (create_bundle rt args).1 in
      let (after, end) = main codec w rt args bundle_files in
      Starts w rt args end × Leaves codec w before after
unfolding main try_inject ended
main-execs codec w rt args bundle_files full ok =
    let files = bundle_files (create_bundle rt args).1 in
    let starts = exec_runtime-Starts w rt args full in
    let (after, e, leaves) = try_read-Leaves codec w files files.config refl ok in
    elim (Bool-cases (create_bundle rt args).0) [
      | inl q ↦ rw (q, e) (starts, leaves)
      | inr q ↦ rw q (starts, inl refl)
    ]
