-- ===== src/Mirror/Reservations.antt =====
-- Bind reservations of mirror.go: what is answered, and what is held.
use drawbridge.Base.{
  ◌≡◌, Bool, true, false, not, ◌&&◌, none, some, arith, if◌then◌else◌, is_some, ◌⊎◌, eqb,
}
use drawbridge.Base.Eq.{◌==◌, string_eq}
use drawbridge.Mirror.Types.{
  MirrorKey, key_eq, key_beq_iff, Client, Mac, ReserveReq, ReserveResp, BindResult, bound,
  eaddrinuse, eacces, failed,
}
use drawbridge.Mirror.Policy.{skips, mac_held, note_skip}
use drawbridge.Mirror.Reserve.{
  resp_ok, refused, tcp_key, reserve_bound, reserve_bind, handle_reserve,
}
use drawbridge.Mirror.View.{view_at, can_open, view-observe, view-register}

-- A request that `handleReserve` arbitrates at all.
abbrev pub arbitrates : ReserveReq → Bool
arbitrates r = r.op == "reserve" && r.proto == "tcp" && not (eqb r.port 0)

-- Whether the request makes a new reservation.
unfoldable pub reserves : Mac → ReserveReq → Client → Bool
reserves m r c =
    arbitrates r
    && not (skips c.config r.port)
    && not (is_some (view_at (tcp_key r.port) c))
    && can_open m (tcp_key r.port)

reserve_bound-view :
    (j key : MirrorKey) (m : Mac) (c : Client)
    → view_at j (reserve_bound m key c) ≡ (if key == j then some (0, true) else view_at j c)
unfolding reserve_bound
reserve_bound-view j key m c = view-register j m key 0 true c

pub handle_reserve-view :
    (j : MirrorKey) (m : Mac) (r : ReserveReq) (c : Client)
    → view_at j (handle_reserve m r c).0
      ≡ (if reserves m r c && tcp_key r.port == j then some (0, true) else view_at j c)
unfolding handle_reserve reserve_bind note_skip reserves can_open
handle_reserve-view j m r c = ground (
  arith,
  reserve_bound-view j (tcp_key r.port) m c,
  view-observe j m.now (tcp_key r.port) "skipped" c,
)

pub handle_reserve_ok :
    (m : Mac) (r : ReserveReq) (c : Client)
    → (handle_reserve m r c).1.ok ≡ true
    → (arbitrates r ≡ true)
      × ((skips c.config r.port ≡ true)
          ⊎ (is_some (view_at (tcp_key r.port) (handle_reserve m r c).0) ≡ true))
unfolding handle_reserve reserve_bind
handle_reserve_ok m r c h = ground (
  arith,
  reserve_bound-view (tcp_key r.port) (tcp_key r.port) m c,
  key_beq_iff (tcp_key r.port) (tcp_key r.port),
)

-- A request that is refused changes nothing: no socket, no mirror, no timer, no line.
pub handle_reserve_refused :
    (m : Mac) (r : ReserveReq) (c : Client)
    → (handle_reserve m r c).1.ok ≡ false
    → (handle_reserve m r c).0 ≡ c
unfolding handle_reserve reserve_bind
handle_reserve_refused m r c h = ground arith

-- What is answered to a TCP request for a port that is not skipped and not mirrored: inuse if a
-- native holder is known or the bind finds the address in use, ok if the bind succeeds, and unknown
-- after any other bind error.
abbrev pub bind_answer : Bool → BindResult → ReserveResp
bind_answer true b = refused "inuse"
bind_answer false bound = resp_ok
bind_answer false eaddrinuse = refused "inuse"
bind_answer false eacces = refused "unknown"
bind_answer false failed = refused "unknown"

pub handle_reserve_answer :
    (m : Mac) (r : ReserveReq) (c : Client)
    → arbitrates r ≡ true
    → skips c.config r.port ≡ false
    → view_at (tcp_key r.port) c ≡ none
    → (handle_reserve m r c).1
      ≡ bind_answer (not (mac_held m "tcp" r.port == "")) (m.listen (tcp_key r.port))
unfolding handle_reserve reserve_bind
handle_reserve_answer m r c a s v = ground arith
