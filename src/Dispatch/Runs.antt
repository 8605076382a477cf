-- ===== src/Dispatch/Runs.antt =====
-- The dispatch's theorems at concrete connections.
use drawbridge.Base.{ℕ, zero, suc, get_or, ◌≡◌, ◌⊎◌, refl, String, true, none, some, List, [], ◌∷◌}
use drawbridge.Base.Eq.{contains}
use drawbridge.Base.Bytes.{bytes}
use drawbridge.TransportAuth.Secret.{
  ok, content, parse, hex_decode, hex_value, trim_space, trim_while, first_space, last_space, load,
}
use drawbridge.TransportAuth.Handshake.{Conn}
use drawbridge.TransportAuth.Latch.{configured, load_latched}
use drawbridge.TransportAuth.Frame.{auth_frame}
use drawbridge.TransportAuth.Exchange.{conn_of}
use drawbridge.Limiter.{new_limiter}
use drawbridge.DialPool.{new_dial_pool}
use drawbridge.Dispatch.{Agent, Arrival, handle_transport_conn, dispatch}
use drawbridge.Dispatch.Authentic.{Proved, Untouched, handle_transport_conn-Proved}
use drawbridge.Dispatch.Hello.{let_in, hello, handle_transport_conn-hello}

abbrev same_path : String → String
same_path p = p

-- Stands in for HMAC: a tag of 32 bytes that repeats a byte of the key.
abbrev short_hmac : List ℕ → List ℕ → List ℕ
short_hmac key msg = get_or key 0 0 ∷ bytes "0123456789abcdef0123456789abcde"

abbrev secret_file : List ℕ
secret_file = bytes "0707070707070707070707070707070707070707070707070707070707070707"

abbrev agent : Agent
agent = record {
  latched = "/etc/drawbridge/secret" ∷ [];
  auth_log = new_limiter 30_000_000_000;
  auth_lines = [];
  pool = new_dial_pool;
  reserver = record { mac = []; res_conn = none; shut_conns = [] };
  handlers = [];
  shut_conns = [];
}

abbrev arrival : Arrival
arrival = record {
  file = content secret_file;
  now = 9;
  conn = 4;
  peer = record { src = "192.168.64.1:50123"; host = some "192.168.64.1" };
  dials = λ port. true;
}

-- A connection that asks to be parked, without a proof.
abbrev unproved : Conn
unproved = conn_of (b'D' ∷ 0 ∷ 0 ∷ 0 ∷ [])

handle_transport_conn-Proved_example :
    Untouched short_hmac same_path 4 agent
      (handle_transport_conn short_hmac same_path "/etc/drawbridge/secret" arrival unproved agent)
    ⊎ Proved short_hmac (content secret_file) unproved
handle_transport_conn-Proved_example =
    handle_transport_conn-Proved short_hmac same_path "/etc/drawbridge/secret" arrival unproved
      agent (unfold configured contains in refl)

abbrev sevens : ℕ → List ℕ
sevens zero = []
sevens (suc n) = 7 ∷ sevens n

reads_sevens :
    (load_latched same_path "/etc/drawbridge/secret" arrival.file agent.latched).1
    ≡ ok (some (sevens 32))
unfolding load_latched load parse trim_space trim_while first_space last_space hex_decode hex_value
reads_sevens = refl

handle_transport_conn-hello_example :
    handle_transport_conn short_hmac same_path "/etc/drawbridge/secret" arrival
      (hello short_hmac (some (sevens 32)) b'D' [])
      agent
    ≡ dispatch arrival.dials b'D' 4
        (let_in short_hmac (some (sevens 32)) (auth_frame b'D' (some (sevens 32))) [])
        (record agent {
          latched = (load_latched same_path "/etc/drawbridge/secret" arrival.file agent.latched).0;
        })
handle_transport_conn-hello_example =
    handle_transport_conn-hello short_hmac same_path "/etc/drawbridge/secret" arrival b'D' []
      (some (sevens 32)) agent (λ key msg. refl) reads_sevens
