-- ===== src/AgentReserve/EndToEnd.antt =====
-- The agent's answer, when the Mac's is Mirror's.
use mathlib.Core.Path.{subst}
use drawbridge.Base.{
  ℕ, String, ◌≡◌, ◌≢◌, refl, ◌⊎◌, inl, inr, Bool, true, false, ◌&&◌, Option, none, some,
  if◌then◌else◌, is_some, arith, eq_iff,
}
use drawbridge.Base.Eq.{string_eq}
use drawbridge.Mirror.Types.{Client, ReserveReq, ReserveResp, Mac}
use drawbridge.Mirror.Policy.{skips}
use drawbridge.Mirror.Reserve.{tcp_key, handle_reserve}
use drawbridge.Mirror.View.{view_at}
use drawbridge.Mirror.Reservations.{handle_reserve_ok}
use drawbridge.AgentReserve.{Reserver, in_mac, mac_port_held, reason_of, ask, reserve_port}

abbrev pub request : String → ℕ → String → ReserveReq
request proto port addr = record { op = "reserve"; proto = proto; port = port; addr = addr }

-- The Mac's response, if it is delivered in time.
abbrev pub delivered : Bool → ReserveResp → Option ReserveResp
delivered in_time resp = if in_time then some resp else none

ask-delivered :
    (conn : Option ℕ) (in_time : Bool) (resp : ReserveResp) (a : Reserver)
    → (ask conn (delivered in_time resp) a).1 ≡ "ok"
    → is_some conn && in_time && resp.ok ≡ true
unfolding ask reason_of
ask-delivered none in_time resp a h = ground (arith, eq_iff "unknown" "ok")
ask-delivered (some conn) false resp a h = ground (arith, eq_iff "unknown" "ok")
ask-delivered (some conn) true resp a h = ground (arith, eq_iff "unknown" "ok", eq_iff "inuse" "ok")

reserve_port-asks :
    (unlocked : Bool) (in_time : Bool) (resp : ReserveResp) (proto : String) (port : ℕ)
    (a : Reserver)
    → (reserve_port unlocked (delivered in_time resp) proto port a).1 ≡ "ok"
    → (is_some a.res_conn && in_time && resp.ok ≡ true)
      × ((mac_port_held unlocked proto port a).0 && (mac_port_held unlocked proto port a).1 ≡ false)
unfolding reserve_port
reserve_port-asks unlocked in_time resp proto port a h =
    ground (arith, eq_iff "inuse" "ok", ask-delivered a.res_conn in_time resp a)

not_held :
    (unlocked : Bool) (port : ℕ) (a : Reserver)
    → (mac_port_held unlocked "tcp" port a).0 && (mac_port_held unlocked "tcp" port a).1 ≡ false
    → (unlocked ≡ false) ⊎ (in_mac 6 port a ≡ false)
unfolding mac_port_held
not_held false port a h = inl refl
not_held true port a h = inr (ground arith)

-- A guest bind that the agent answers ok is for a TCP port other than 0 that its own set of Mac ports
-- does not hold, unless that set was locked; the agent had a connection to the Mac, which was asked
-- and answered ok in time; and the port is on the Mac's skip-list, or the Mac holds a mirror on it.
pub reserve_port-handle_reserve :
    (unlocked : Bool) (in_time : Bool) (m : Mac) (proto : String) (port : ℕ) (addr : String)
    (a : Reserver) (c : Client)
    → (reserve_port unlocked
        (delivered in_time (handle_reserve m (request proto port addr) c).1)
        proto
        port
        a).1
      ≡ "ok"
    → (proto ≡ "tcp")
      × (port ≢ 0)
      × ((unlocked ≡ false) ⊎ (in_mac 6 port a ≡ false))
      × (is_some a.res_conn && in_time ≡ true)
      × ((skips c.config port ≡ true)
          ⊎ (is_some (view_at (tcp_key port) (handle_reserve m (request proto port addr) c).0)
              ≡ true))
reserve_port-handle_reserve unlocked in_time m proto port addr a c h =
    let resp = (handle_reserve m (request proto port addr) c).1 in
    let asked = reserve_port-asks unlocked in_time resp proto port a h in
    let ok = handle_reserve_ok m (request proto port addr) c (ground (arith, asked.0)) in
    let tcp : proto ≡ "tcp" = ground (arith, ok.0, eq_iff proto "tcp") in
    let held : (mac_port_held unlocked "tcp" port a).0 && (mac_port_held unlocked "tcp" port a).1
        ≡ false =
      subst
        (λ q. (mac_port_held unlocked q port a).0 && (mac_port_held unlocked q port a).1 ≡ false)
        tcp asked.1 in
    (tcp, ground (arith, ok.0), not_held unlocked port a held, ground (arith, asked.0), ok.1)
