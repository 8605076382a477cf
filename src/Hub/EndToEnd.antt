-- ===== src/Hub/EndToEnd.antt =====
-- The hub of tracker.go in the guest and the client of mirror.go on the Mac, over one 'E' stream.
use mathlib.Core.Path.{subst, subst₂}
use mathlib.Core.List.{Permᴰ, Memᴰ, append-nil}
use mathlib.Core.List.Memᴰ.{head, tail}
use drawbridge.Base.{◌≡◌, refl, sym, ap, ◌∙◌, true, Option, List, [], ◌∷◌, ◌++◌}
use drawbridge.Mirror.Types.{ListenerInfo, MirrorKey, Config, Client, new_client}
use drawbridge.Mirror.Steps.{Step, event, session_end, reserve, ttl_fires, step, run}
use drawbridge.Mirror.View.{view_at}
use drawbridge.Mirror.Reconcile.{demand}
use drawbridge.Mirror.Guest.{guest_event, guest_step, guest_run}
use drawbridge.Mirror.Session.{close_all}
use drawbridge.Mirror.Effects.{close_all-view}
use drawbridge.Mirror.Settings.{step-config}
use drawbridge.Ring.{Ring}
use drawbridge.Hub.{Subscriber, new_hub}
use drawbridge.Hub.Steps.{Formats, HubStep, hub_run}
use drawbridge.Hub.Order.{demand-Permᴰ}
use drawbridge.Hub.Mirrored.{events_of, allows, Mirrors, run-Mirrors}
use drawbridge.Hub.Follows.{replay, all_fit, Follows, AllFollow, Ordered, hub_run-AllFollow}

guest_run-replay :
    (ss : List Step) (guest : List ListenerInfo) → guest_run ss guest ≡ replay (events_of ss) guest
unfolding guest_run guest_step replay events_of
guest_run-replay [] guest = refl
guest_run-replay (event m ev ∷ ss) guest = guest_run-replay ss (guest_event ev guest)
guest_run-replay (session_end ∷ ss) guest = guest_run-replay ss guest
guest_run-replay (reserve m r ∷ ss) guest = guest_run-replay ss guest
guest_run-replay (ttl_fires key sock ∷ ss) guest = guest_run-replay ss guest

-- The client after the end of some sessions.
abbrev ended : List Step → Client → Client
ended earlier c = close_all (run earlier c)

run-after_sessions :
    (earlier ss : List Step) (c : Client)
    → run (earlier ++ session_end ∷ ss) c ≡ run ss (ended earlier c)
unfolding run step
run-after_sessions [] ss c = refl
run-after_sessions (x ∷ xs) ss c = run-after_sessions xs ss (step x c)

run-config : (ss : List Step) (c : Client) → (run ss c).config ≡ c.config
unfolding run
run-config [] c = refl
run-config (s ∷ ss) c = run-config ss (step s c) ∙ step-config s c

ended-config : (earlier : List Step) (c : Client) → (ended earlier c).config ≡ c.config
unfolding step
ended-config earlier c = step-config session_end (run earlier c) ∙ run-config earlier c

ended-Mirrors :
    (cfg : Config) (j : MirrorKey) (earlier : List Step) (c : Client)
    → Mirrors (demand cfg [] j) (view_at j (ended earlier c))
unfolding demand
ended-Mirrors cfg j earlier c = rw (close_all-view j (run earlier c)) refl

each-Follows :
    (set : List ListenerInfo) (s : Subscriber) (subs : List Subscriber)
    → AllFollow set subs
    → Memᴰ s subs
    → Follows set s
unfolding AllFollow
each-Follows set s [] h m = elim m [ ]
each-Follows set s (x ∷ subs) (f, h) (head e) = subst (Follows set) (sym e) f
each-Follows set s (x ∷ subs) (f, h) (tail m) = each-Follows set s subs h m

module _ (cfg : Config) (ring : Option Ring) (formats : Formats) where
  -- The hub after any history, and the client of mirror.go in a session that starts after the end of
  -- the earlier ones, where it has handled what a subscriber that the hub still has received, while
  -- nothing waits in its channel, and at each event the Mac knew no native holder of a TCP port at a
  -- key and would have bound it: the client has a mirror at the key if and only if a listener of the
  -- hub's set asks for one, but for a pending reservation where none asks, and the mirror counts just
  -- as many references as there are such listeners.
  pub run-Mirrors-hub :
      (hs : List HubStep) (s : Subscriber) (earlier ss : List Step) (j : MirrorKey)
      → Ordered hs
      → Memᴰ s (hub_run formats hs new_hub).subs
      → s.buffer ≡ []
      → events_of ss ≡ s.taken
      → allows j ss ≡ true
      → Mirrors
          (demand cfg (hub_run formats hs new_hub).set j)
          (view_at j (run (earlier ++ session_end ∷ ss) (new_client cfg ring)))
  unfolding new_client
  run-Mirrors-hub hs s earlier ss j o m drained handled allowed =
      let set = (hub_run formats hs new_hub).set in
      let follows =
        each-Follows set s (hub_run formats hs new_hub).subs (hub_run-AllFollow formats hs o) m in
      let all : s.taken ++ s.buffer ≡ events_of ss =
        ap (◌++◌ s.taken) drained ∙ append-nil s.taken ∙ sym handled in
      let told : Permᴰ (guest_run ss []) set =
        subst (λ g. Permᴰ g set) (ap (λ evs. replay evs []) all ∙ sym (guest_run-replay ss []))
          (follows.0 []) in
      let fit : all_fit (events_of ss) [] ≡ true =
        ap (λ evs. all_fit evs []) (sym all) ∙ follows.2 [] in
      subst₂ (λ n c. Mirrors n (view_at j c)) (demand-Permᴰ cfg j told)
        (sym (run-after_sessions earlier ss (new_client cfg ring)))
        (run-Mirrors cfg j ss [] (ended earlier (new_client cfg ring))
          (ended-config earlier (new_client cfg ring)) allowed fit
          (ended-Mirrors cfg j earlier (new_client cfg ring)))
