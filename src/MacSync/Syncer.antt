-- ===== src/MacSync/Syncer.antt =====
-- sync.go: the offered set and the events of an 'M' session.
use drawbridge.Base.{
  ℕ, ◌+◌, String, Bool, true, false, not, ◌&&◌, ◌||◌, Option, none, some, List, [], ◌∷◌, ◌++◌, eqb,
  ltb, if◌then◌else◌, length, keep, map, arith, ◌≡◌, ◌↔◌,
}
use drawbridge.Base.Eq.{Comparable, ◌==◌, string_eq, nat_eq, contains}
use drawbridge.Base.Sets.{put}
use drawbridge.Base.Text.{itoa, ◌<>◌}
use drawbridge.Ring.{Ring, record_line}
use drawbridge.MacSync.Listeners.{
  Addr, Listener, listener_eq, addr_beq, v4_loopback, v4_any, v6_any,
}

pub record AdvKey : Type 0 where
  pub proto : ℕ
  pub port : ℕ

abbrev pub adv_key_beq : AdvKey → AdvKey → Bool
adv_key_beq a b = eqb a.proto b.proto && eqb a.port b.port

pub adv_key_beq_iff : (a b : AdvKey) → (adv_key_beq a b ≡ true) ↔ (a ≡ b)
adv_key_beq_iff a b = ground arith

instance abbrev pub adv_key_eq : Comparable AdvKey
adv_key_eq = record { equal = adv_key_beq; equal_iff = adv_key_beq_iff }

unfoldable pub adv_key_of : Listener → Option AdvKey
adv_key_of l =
    if l.proto == "tcp"
    then some (record { proto = 6; port = l.port })
    else if l.proto == "udp"
    then some (record { proto = 17; port = l.port })
    else none

-- The Syncer's fields that the set and the reverse streams depend on. `exclude` is what
-- Exclude says at the moment, and excludes nothing for the nil function; `advertised` is `none` for the nil pointer, `last_emptied_log` for the
-- zero time.
pub record Syncer : Type 0 where
  pub exclude : Listener → Bool
  pub udp_ports : List ℕ
  pub advertised : Option (List AdvKey)
  pub session_up : Bool
  pub last_emptied_log : Option ℕ
  pub refusals : Option Ring

unfoldable pub v4_address : Listener → Option Addr
v4_address l =
    if addr_beq l.addr v4_loopback || addr_beq l.addr v4_any
    then some l.addr
    else if addr_beq l.addr v6_any && not l.v6_only
    then some v4_any
    else none

unfoldable pub normal_at : (Listener → Bool) → Listener → Option Addr → Option Listener
normal_at exclude l none = none
normal_at exclude l (some a) =
    let l' = record l { addr = a; v6_only = false } in if exclude l' then none else some l'

unfoldable pub normalize : (Listener → Bool) → Listener → Option Listener
unfolding v4_address normal_at
normalize exclude l =
    if not (l.proto == "tcp") || eqb l.port 0 then none else normal_at exclude l (v4_address l)

unfoldable pub put_normal : Option Listener → List Listener → List Listener
put_normal none set = set
put_normal (some l) set = put l set

-- The polled listeners, one after the other.
unfoldable pub put_polled : (Listener → Bool) → List Listener → List Listener → List Listener
unfolding put_normal
put_polled exclude [] set = set
put_polled exclude (l ∷ ls) set = put_polled exclude ls (put_normal (normalize exclude l) set)

abbrev pub udp_service : ℕ → Listener
udp_service p = record { proto = "udp"; port = p; addr = v4_any; v6_only = false }

-- The configured UDP services.
unfoldable pub put_udp : (Listener → Bool) → List ℕ → List Listener → List Listener
put_udp exclude [] set = set
put_udp exclude (p ∷ ps) set =
    let l = udp_service p in put_udp exclude ps (if eqb p 0 || exclude l then set else put l set)

unfoldable pub current_set : Syncer → Option (List Listener) → Option (List Listener)
current_set s none = none
current_set s (some ls) = some (put_udp s.exclude s.udp_ports (put_polled s.exclude ls []))

abbrev pub id_advertised_emptied : String
id_advertised_emptied = "advertised-emptied"

abbrev pub emptied_line : ℕ → String
emptied_line had =
    "advertised set went "
    <> itoa had
    <> " -> 0 while the 'M' session is up — every reverse activation will be refused until listeners reappear; if Mac listeners did not all just close, suspect a torn listener poll (the next tick heals it; 'drawbridge doctor' shows the live set)"

-- 30 seconds have passed since the last line, if there was one.
emptied_due : ℕ → Option ℕ → Bool
emptied_due now none = true
emptied_due now (some at) = not (ltb now (at + 30_000_000_000))

unfoldable pub note_emptied : ℕ → ℕ → Syncer → Syncer
unfolding emptied_due
note_emptied now had s =
    if emptied_due now s.last_emptied_log
    then record s {
      last_emptied_log = some now;
      refusals = record_line s.refusals now id_advertised_emptied (emptied_line had);
    }
    else s

unfoldable pub put_key : Option AdvKey → List AdvKey → List AdvKey
put_key none ks = ks
put_key (some k) ks = put k ks

unfoldable pub adv_keys : List Listener → List AdvKey
unfolding put_key
adv_keys [] = []
adv_keys (l ∷ ls) = put_key (adv_key_of l) (adv_keys ls)

had_before : Option (List AdvKey) → ℕ
had_before none = 0
had_before (some ks) = length ks

unfoldable pub set_advertised : ℕ → List Listener → Syncer → Syncer
unfolding had_before
set_advertised now set s =
    let adv = adv_keys set in
    let s' = record s { advertised = some adv } in
    let had = had_before s.advertised in
    if eqb (length adv) 0 && not (eqb had 0) && s.session_up then note_emptied now had s' else s'

unfoldable pub is_advertised : ℕ → ℕ → Option (List AdvKey) → Bool
is_advertised proto port none = false
is_advertised proto port (some adv) = contains (record { proto = proto; port = port }) adv

-- Run primes the set before anything parks: an error of the poll offers nothing.
unfoldable pub prime : ℕ → Option (List Listener) → Syncer → Syncer
prime now none s = set_advertised now [] s
prime now (some set) s = set_advertised now set s

-- What one JSON line on the stream says.
pub data SyncEvent : Type 0 where
  op_snapshot : List Listener → SyncEvent
  op_add op_del : Listener → SyncEvent
  op_ping : SyncEvent

-- The events of one tick from the set last sent to the current one, before a ping.
unfoldable pub tick_events : List Listener → List Listener → List SyncEvent
tick_events last cur =
    map op_del (keep (λ l. not (contains l cur)) last)
    ++ map op_add (keep (λ l. not (contains l last)) cur)

-- The ping goes out if nothing was sent for 10 seconds.
unfoldable pub idle_ping : ℕ → ℕ → List SyncEvent
idle_ping now last_sent = if ltb (last_sent + 10_000_000_000) now then op_ping ∷ [] else []
