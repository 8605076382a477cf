-- ===== src/Hub/Runs.antt =====
-- Runs of the hub, beside the client of mirror.go.
use mathlib.Core.Path.{subst}
use mathlib.Core.List.{Memᴰ}
use mathlib.Core.List.Permᴰ
use mathlib.Core.List.Memᴰ.{head}
use drawbridge.Base.{ℕ, ◌≡◌, refl, sym, Option, none, some, List, [], ◌∷◌}
use drawbridge.Mirror.Types.{ListenerInfo, Config, Mac, bound, new_client}
use drawbridge.Mirror.Steps.{Step, event, session_end, run}
use drawbridge.Mirror.Policy.{mac_held}
use drawbridge.Mirror.View.{view_at, can_open}
use drawbridge.Mirror.Reconcile.{demand}
use drawbridge.Base.Eq.{string_eq, nat_eq, contains}
use drawbridge.Base.Sets.{put, remove}
use drawbridge.Hub.{
  Subscriber, new_hub, snapshot_event, listener_event, listener_eq, subscribe, apply, publish,
  receives, received, event_worthy,
}
use drawbridge.Hub.Steps.{
  Formats, ListenerEvent, HubStep, subscribes, receive, seeds, tracks, hub_run, hub_step, tracked,
  tracked_event, listener_from_event,
}
use drawbridge.Hub.Follows.{AllFollow, Ordered, hub_run-AllFollow}
use drawbridge.Hub.Mirrored.{events_of, allows, Mirrors}
use drawbridge.Hub.EndToEnd.{run-Mirrors-hub}

abbrev read_two : List ℕ → Option ListenerEvent
read_two [] = none
read_two (op ∷ []) = none
read_two (op ∷ port ∷ rest) = some (record { op = op; proto = 6; port = port; addr = [] })

abbrev formats : Formats
formats = record { read = read_two; text = λ addr. "127.0.0.1" }

abbrev web : ListenerInfo
web = record { proto = "tcp"; port = 8080; addr = "127.0.0.1" }

abbrev api : ListenerInfo
api = record { proto = "tcp"; port = 9000; addr = "127.0.0.1" }

-- A listener before the stream, one after it, and the end of the first.
abbrev history : List HubStep
history =
    seeds web
    ∷ subscribes 0 (λ xs. xs)
    ∷ tracks (1 ∷ 9000 ∷ [])
    ∷ receive 0
    ∷ tracks (2 ∷ 8080 ∷ [])
    ∷ receive 0
    ∷ receive 0
    ∷ []

history-Ordered : Ordered history
unfolding Ordered
history-Ordered = (λ xs. Permᴰ.refl xs, tt)

hub_run-AllFollow_example :
    AllFollow (hub_run formats history new_hub).set (hub_run formats history new_hub).subs
hub_run-AllFollow_example = hub_run-AllFollow formats history history-Ordered

abbrev reader : Subscriber
reader = record {
  id = 0;
  buffer = [];
  taken = snapshot_event (web ∷ []) ∷ listener_event "add" api ∷ listener_event "del" web ∷ [];
}

history_leaves : (hub_run formats history new_hub).subs ≡ reader ∷ []
unfolding hub_run hub_step subscribe apply tracked tracked_event listener_from_event publish
    receives received event_worthy snapshot_event listener_event put remove contains
history_leaves = refl

abbrev settings : Config
settings = record { agent_port = 4778; guest_agent_port = 0; skip = []; reserve_ttl = 0 }

abbrev mac : Mac
mac = record { now = 7; mac_holder = none; listen = λ key. bound }

abbrev session : List Step
session =
    event mac (snapshot_event (web ∷ []))
    ∷ event mac (listener_event "add" api)
    ∷ event mac (listener_event "del" web)
    ∷ []

-- Both sides end with the second listener.
run-Mirrors-hub_example :
    Mirrors
      (demand settings
        (hub_run formats history new_hub).set
        (record { proto = "tcp"; port = 9000 }))
      (view_at
        (record { proto = "tcp"; port = 9000 })
        (run (session_end ∷ session) (new_client settings none)))
unfolding events_of allows can_open mac_held
run-Mirrors-hub_example =
    run-Mirrors-hub settings none formats history reader [] session
      (record { proto = "tcp"; port = 9000 }) history-Ordered
      (subst (Memᴰ reader) (sym history_leaves) (head refl)) refl refl refl
