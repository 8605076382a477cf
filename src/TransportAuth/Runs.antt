-- ===== src/TransportAuth/Runs.antt =====
-- The authentication scheme's theorems at concrete inputs.
use drawbridge.Base.Bytes.{bytes}
use drawbridge.Base.{
  ℕ, zero, suc, ◌+◌, ◌≡◌, ◌≢◌, refl, ap, String, true, none, some, List, [], ◌∷◌, ◌++◌, arith,
  length, take, drop, inl, ◌⊎◌, get_or,
}
use drawbridge.Base.Eq.{string_eq}
use drawbridge.TransportAuth.Frame.{TypeFrame, frame, auth_frame, mac_proof, agent_proof, verify}
use drawbridge.TransportAuth.Secret.{
  format, parse, hex_decode, hex_value, trim_space, trim_while, first_space, last_space, absent,
  content, load, err, err_configured_missing,
}
use drawbridge.TransportAuth.Handshake.{
  Conn, refused, proof_mismatch, incomplete, server_handshake, await_agent_proof, write, read_full,
  arm_both, clear_both,
}
use drawbridge.TransportAuth.Latch.{load_latched}
use drawbridge.TransportAuth.Sticky.{loads, access_all, load_latched-history}
use drawbridge.TransportAuth.SecretText.{All, IsByte, parse-format, parse-IsByte}
use drawbridge.TransportAuth.Domains.{mac, agent, message, NoCollision, server_handshake_replay}
use drawbridge.TransportAuth.Outcomes.{
  NoDeadline, server_handshake_silent, server_handshake_passes, handshake_deadlines,
}
use drawbridge.TransportAuth.Exchange.{conn_of, exchange, exchange-agreement}

abbrev count_up : ℕ → ℕ → List ℕ
count_up i zero = []
count_up i (suc k) = i ∷ count_up (i + 7) k

abbrev some_secret : List ℕ
some_secret = count_up 3 32

parse-format_example : parse (format some_secret) ≡ some some_secret
parse-format_example = parse-format some_secret refl (omega arith)

-- A hand-written file: upper case, white space around it.
abbrev written_by_hand : List ℕ
written_by_hand =
    32 ∷ bytes "000102030405060708090A0B0C0D0E0F101112131415161718191A1B1C1D1E1F" ++ 13 ∷ 10 ∷ []

abbrev counted : List ℕ → ℕ → List ℕ
counted acc zero = acc
counted acc (suc k) = counted (k ∷ acc) k

parses_by_hand : parse written_by_hand ≡ some (counted [] 32)
unfolding parse trim_space trim_while first_space last_space hex_decode hex_value
parses_by_hand = refl

hand_written_secret : (length (counted [] 32) ≡ 32) × All IsByte (counted [] 32)
hand_written_secret = parse-IsByte written_by_hand (counted [] 32) parses_by_hand

-- filepath.Clean on paths that are clean.
abbrev same_path : String → String
same_path p = p

load_latched-history_example :
    (load_latched same_path "/s" absent
      (access_all same_path (loads "/t" absent ∷ loads "/s" (content []) ∷ []) [])).1
    ≡ err err_configured_missing
unfolding load
load_latched-history_example =
    load_latched-history same_path "/s" absent (loads "/t" absent ∷ loads "/s" (content []) ∷ [])
      refl

-- A stand-in for HMAC that keeps 32 bytes of the message; its tags tell the messages apart.
abbrev toy_hmac : List ℕ → List ℕ → List ℕ
toy_hmac key msg = take 32 (drop 1 msg ++ 0 ∷ 0 ∷ [])

toy_apart : NoCollision toy_hmac some_secret
toy_apart mac mac f g h = ground arith
toy_apart agent agent f g h = ground arith
toy_apart mac agent f g h =
    absurd (let e : ◌≡◌ {A = ℕ} b'm' b'a' = ap (λ xs. get_or xs 23 0) h in omega arith)
toy_apart agent mac f g h =
    absurd (let e : ◌≡◌ {A = ℕ} b'a' b'm' = ap (λ xs. get_or xs 23 0) h in omega arith)

abbrev stream_frame : TypeFrame
stream_frame = record { typ = b'S'; auth = 1; byte2 = 0; byte3 = 0 }

-- The agent's own proof, sent back to it.
abbrev reflected : Conn
reflected = conn_of (toy_hmac some_secret (message agent stream_frame))

server_handshake_replay_example :
    (server_handshake toy_hmac (some some_secret) stream_frame 0 9 reflected).1
    ≡ refused proof_mismatch
server_handshake_replay_example =
    (server_handshake_replay toy_hmac some_secret agent stream_frame stream_frame 0 9 reflected
      toy_apart (inl refl) (omega arith) (omega arith) refl).0

abbrev honest : Conn
honest = conn_of (toy_hmac some_secret (message mac stream_frame))

server_handshake_silent_runs :
    let r = server_handshake toy_hmac (some some_secret) stream_frame 0 9 honest in
    (r.0.written ≡ [])
    ⊎ ((take 32 honest.incoming ≡ mac_proof toy_hmac some_secret stream_frame)
        × (r.0.written ≡ [] ++ agent_proof toy_hmac some_secret stream_frame ∷ []))
server_handshake_silent_runs = server_handshake_silent toy_hmac some_secret stream_frame 0 9 honest

honest_peer_passes :
    ((some some_secret ≡ none) × (stream_frame.auth ≡ 0))
    ⊎ ((s : List ℕ) × (some some_secret ≡ some s)
        × (stream_frame.auth ≢ 0)
        × (take 32 honest.incoming ≡ mac_proof toy_hmac s stream_frame)
        × (honest.takes_write ≡ true))
unfolding server_handshake mac_proof agent_proof verify write read_full arm_both clear_both
honest_peer_passes =
    server_handshake_passes toy_hmac (some some_secret) stream_frame 0 9 honest refl

clears_deadlines :
    NoDeadline toy_hmac (server_handshake toy_hmac (some some_secret) stream_frame 0 9 honest).0
    × NoDeadline toy_hmac (await_agent_proof toy_hmac (some some_secret) stream_frame 0 9 honest).0
clears_deadlines =
    handshake_deadlines toy_hmac (some some_secret) stream_frame 0 9 honest (refl, refl)

-- A tag of 32 whatever the message.
abbrev flat_hmac : List ℕ → List ℕ → List ℕ
flat_hmac key msg = get_or key 0 0 ∷ count_up 0 31

-- An agent with another secret than the Mac's.
exchange-agreement_example :
    ((exchange flat_hmac (some some_secret) (some (count_up 4 32)) b'S' (7 ∷ [])).0
      ≡ refused incomplete)
    × ((exchange flat_hmac (some some_secret) (some (count_up 4 32)) b'S' (7 ∷ [])).1
        ≡ refused proof_mismatch)
unfolding auth_frame frame verify mac_proof
exchange-agreement_example =
    exchange-agreement flat_hmac (some some_secret) (some (count_up 4 32)) b'S' (7 ∷ [])
      (λ key msg. refl)
