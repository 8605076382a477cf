-- ===== src/TransportAuth/Domains.antt =====
-- Domain separation of transportauth.go's proofs: direction, connection type and auth byte.
use drawbridge.Base.{ℕ, ◌≤◌, ◌≡◌, ◌≢◌, ap, some, List, arith, length, take, get_or, ◌⊎◌}
use drawbridge.TransportAuth.Frame.{
  TypeFrame, label_mac, label_agent, proof_message, proof_len, auth_none, verify_iff, mac_proof,
}
use drawbridge.TransportAuth.Handshake.{
  Conn, refused, proof_mismatch, server_handshake, read_full, arm_both, clear_both,
}

pub data Side : Type 0 where
  mac agent : Side

abbrev pub message : Side → TypeFrame → List ℕ
message mac f = proof_message label_mac f
message agent f = proof_message label_agent f

-- The messages that proofs sign differ with the side, the connection type and the auth byte.
pub message_inj : (s t : Side) (f g : TypeFrame) → message s f ≡ message t g → (s ≡ t) × (f ≡ g)
message_inj mac mac f g h = ground arith
message_inj agent agent f g h = ground arith
message_inj mac agent f g h =
    absurd (let e : ◌≡◌ {A = ℕ} b'm' b'a' = ap (λ xs. get_or xs 24 0) h in omega arith)
message_inj agent mac f g h =
    absurd (let e : ◌≡◌ {A = ℕ} b'a' b'm' = ap (λ xs. get_or xs 24 0) h in omega arith)

module _ (hmac : List ℕ → List ℕ → List ℕ) (sec : List ℕ) where
  -- The secret's tags tell the protocol's messages apart.
  abbrev pub NoCollision : Type 0
  NoCollision =
      (s t : Side) (f g : TypeFrame)
      → hmac sec (message s f) ≡ hmac sec (message t g)
      → message s f ≡ message t g

  -- Where the secret's tags tell the protocol's messages apart, a proof made for the other direction
  -- or for another frame is refused in place of the Mac's proof for this frame: the connection is
  -- refused for a mismatch, and the agent has written nothing on it.
  pub server_handshake_replay :
      (s : Side) (g f : TypeFrame) (timeout now : ℕ) (c : Conn)
      → NoCollision
      → (s ≡ agent) ⊎ (g ≢ f)
      → f.auth ≢ auth_none
      → proof_len ≤ length c.incoming
      → take proof_len c.incoming ≡ hmac sec (message s g)
      → ((server_handshake hmac (some sec) f timeout now c).1 ≡ refused proof_mismatch)
        × ((server_handshake hmac (some sec) f timeout now c).0.written ≡ c.written)
  unfolding server_handshake read_full arm_both clear_both mac_proof
  server_handshake_replay s g f timeout now c apart other authed long sent = ground (
    arith,
    verify_iff (hmac sec (message mac f)) (take proof_len c.incoming),
    apart s mac g f,
    message_inj s mac g f,
  )
