-- ===== src/Supervise/Answer.antt =====
-- internal/agent/notify.go: answerBind and the loop around it.
use drawbridge.Base.{
  ℕ, String, Bool, true, false, not, ◌||◌, Option, none, some, List, [], ◌∷◌, eqb, if◌then◌else◌,
}
use drawbridge.Base.Eq.{◌==◌, string_eq}
use drawbridge.Mirror.Types.{ReserveResp}
use drawbridge.MacSync.Listeners.{Addr, ip6, v4_loopback, v4_any, v6_any, addr_beq}
use drawbridge.AgentReserve.{Reserver, reserve_port}

abbrev pub v6_loopback : Addr
v6_loopback = ip6 1 ""

-- seccomp.BindAddr
pub record BindAddr : Type 0 where
  pub family : ℕ
  pub addr : Addr
  pub port : ℕ

-- A notification, and what the kernel says of it and of its sender: the sockaddr, whether the sender
-- is in the agent's network namespace, whether the socket is an inet stream (`none` is an error), and
-- whether the call is still blocked.
pub record Bind : Type 0 where
  pub is_bind : Bool
  pub sockaddr : Option BindAddr
  pub same_netns : Option Bool
  pub inet_stream : Option Bool
  pub id_valid : Bool

-- SendContinue, SendErrno with EADDRINUSE, or no answer to a call that is no longer blocked.
pub data BindAnswer : Type 0 where
  continued in_use unanswered : BindAnswer

-- AF_INET and AF_INET6 on Linux.
abbrev pub is_inet : ℕ → Bool
is_inet family = eqb family 2 || eqb family 10

abbrev pub mirrorable_scope : Addr → Bool
mirrorable_scope a =
    addr_beq a v4_loopback || addr_beq a v4_any || addr_beq a v6_any || addr_beq a v6_loopback

abbrev pub judged : Reserver × String → Reserver × BindAnswer
judged (a, verdict) = (a, if verdict == "inuse" then in_use else continued)

-- `unlocked` and `response` are reserve_port's.
module _ (unlocked : Bool) (response : Option ReserveResp) where
  unfoldable pub ask_stream : Option Bool → Bool → ℕ → Reserver → Reserver × BindAnswer
  ask_stream none id_valid port a = (a, continued)
  ask_stream (some false) id_valid port a = (a, continued)
  ask_stream (some true) id_valid port a =
      if id_valid then judged (reserve_port unlocked response "tcp" port a) else (a, unanswered)

  unfoldable pub ask_netns : Option Bool → Bind → ℕ → Reserver → Reserver × BindAnswer
  ask_netns none b port a = (a, continued)
  ask_netns (some false) b port a = (a, continued)
  ask_netns (some true) b port a = ask_stream b.inet_stream b.id_valid port a

  unfoldable pub ask_addr : Option BindAddr → Bind → Reserver → Reserver × BindAnswer
  ask_addr none b a = (a, continued)
  ask_addr (some ba) b a =
      if not (is_inet ba.family)
      then (a, continued)
      else if eqb ba.port 0 || not (mirrorable_scope ba.addr)
      then (a, continued)
      else ask_netns b.same_netns b ba.port a

  -- answerBind
  unfoldable pub answer_bind : Bind → Reserver → Reserver × BindAnswer
  answer_bind b a = if b.is_bind then ask_addr b.sockaddr b a else (a, continued)

-- A round of the supervisor: PollNotif's error or its flags, and Recv's result where `in` is set.
pub data Poll : Type 0 where
  poll_error : Poll
  quiet : Bool → Poll
  received : Bind → Poll
  recv_gone recv_error : Poll

-- runSupervision over the rounds: the binds it answers, and whether it returned. HUP without IN is
-- `quiet true`.
unfoldable pub run_supervision : List Poll → List Bind × Bool
run_supervision [] = ([], false)
run_supervision (poll_error ∷ ps) = ([], true)
run_supervision (recv_error ∷ ps) = ([], true)
run_supervision (recv_gone ∷ ps) = run_supervision ps
run_supervision (quiet hup ∷ ps) = let rest = run_supervision ps in if hup then ([], true) else rest
run_supervision (received b ∷ ps) = let (bs, done) = run_supervision ps in (b ∷ bs, done)
