-- ===== src/TransportAuth/Outcomes.antt =====
-- Both halves of handshake.go: what each writes, and how they agree over a wire.
use drawbridge.Base.{
  ℕ, ◌≡◌, ◌≢◌, refl, true, Option, none, some, List, [], ◌∷◌, ◌++◌, arith, take, ◌⊎◌, inl, inr,
}
use drawbridge.TransportAuth.Frame.{
  TypeFrame, proof_len, auth_none, verify_iff, mac_proof, agent_proof,
}
use drawbridge.TransportAuth.Handshake.{
  Conn, passed, write, read_full, arm_read, clear_read, arm_both, clear_both, await_agent_proof,
  server_handshake,
}

module _ (hmac : List ℕ → List ℕ → List ℕ) where
  -- In every branch the agent either wrote nothing, or it holds a secret, the peer's 32 bytes are the
  -- Mac's proof for this frame, and it wrote its own proof and no more. So it proves nothing to a
  -- peer that has not proved itself.
  pub server_handshake_silent :
      (sec : List ℕ) (f : TypeFrame) (timeout now : ℕ) (c : Conn)
      → let r = server_handshake hmac (some sec) f timeout now c in
        (r.0.written ≡ c.written)
        ⊎ ((take proof_len c.incoming ≡ mac_proof hmac sec f)
            × (r.0.written ≡ c.written ++ agent_proof hmac sec f ∷ []))
  unfolding server_handshake read_full arm_both clear_both write
  server_handshake_silent sec f timeout now c =
      ground (arith, verify_iff (mac_proof hmac sec f) (take proof_len c.incoming))

  -- The agent's half passes exactly if neither side has a secret, or the agent has one, the frame
  -- announces a proof, the peer's next 32 bytes are the right one, and its own can be written.
  pub server_handshake_passes :
      (sec : Option (List ℕ)) (f : TypeFrame) (timeout now : ℕ) (c : Conn)
      → (server_handshake hmac sec f timeout now c).1 ≡ passed
      → ((sec ≡ none) × (f.auth ≡ auth_none))
        ⊎ ((s : List ℕ) × (sec ≡ some s)
            × (f.auth ≢ auth_none)
            × (take proof_len c.incoming ≡ mac_proof hmac s f)
            × (c.takes_write ≡ true))
  unfolding server_handshake read_full arm_both clear_both write
  server_handshake_passes none f timeout now c h = inl (refl, ground arith)
  server_handshake_passes (some s) f timeout now c h = inr (
    s,
    refl,
    ground arith,
    ground (arith, verify_iff (mac_proof hmac s f) (take proof_len c.incoming)),
    ground arith,
  )

  abbrev pub NoDeadline : Conn → Type 0
  NoDeadline c = (c.read_deadline ≡ none) × (c.write_deadline ≡ none)

  -- Neither half leaves a deadline on a connection that had none, in any branch: what follows is a
  -- parked connection, a session or a splice.
  pub handshake_deadlines :
      (sec : Option (List ℕ)) (f : TypeFrame) (timeout now : ℕ) (c : Conn)
      → NoDeadline c
      → NoDeadline (server_handshake hmac sec f timeout now c).0
        × NoDeadline (await_agent_proof hmac sec f timeout now c).0
  unfolding server_handshake await_agent_proof read_full arm_both clear_both arm_read clear_read
      write
  handshake_deadlines none f timeout now c h = ground arith
  handshake_deadlines (some s) f timeout now c h = ground arith
