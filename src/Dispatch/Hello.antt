-- ===== src/Dispatch/Hello.antt =====
-- What an honest Mac's connection gets.
use drawbridge.Base.{
  ℕ, ◌+◌, String, ◌≡◌, refl, ap, ◌∙◌, true, Option, none, some, List, [], ◌∷◌, ◌++◌, length, arith,
  take, drop, take-append, drop-append, length-append,
}
use drawbridge.TransportAuth.Frame.{
  TypeFrame, frame, frame_bytes, proof_message, label_mac, auth_frame, verify_iff, mac_proof,
  agent_proof,
}
use drawbridge.TransportAuth.Handshake.{
  Conn, read_full, arm_read, arm_both, clear_both, write, client_hello, server_handshake,
}
use drawbridge.TransportAuth.Exchange.{conn_of, wire, TagLength}
use drawbridge.TransportAuth.Secret.{ok}
use drawbridge.TransportAuth.Latch.{Latched, load_latched}
use drawbridge.Dispatch.Admit.{
  Verdict, dispatches, known_frame, with_secret, verdict_of, framed, admit,
}
use drawbridge.Dispatch.{Agent, Arrival, handle_transport_conn, settle, dispatch}

module _ (hmac : List ℕ → List ℕ → List ℕ) where
  -- What the agent writes to a peer that it lets in.
  abbrev pub reply : Option (List ℕ) → TypeFrame → List (List ℕ)
  reply none f = []
  reply (some s) f = agent_proof hmac s f ∷ []

  -- The connection when it is dispatched: what rode along is unread.
  abbrev pub let_in : Option (List ℕ) → TypeFrame → List ℕ → Conn
  let_in ms f extra = record (conn_of extra) { written = reply ms f }

  abbrev pub hello : Option (List ℕ) → ℕ → List ℕ → Conn
  hello ms typ extra = conn_of (wire (client_hello hmac ms typ extra (conn_of [])).0.written)

  -- The connection while the agent reads from it.
  abbrev armed : ℕ → List ℕ → Conn
  armed at bs = record (conn_of bs) { read_deadline = some at }

  read_hello :
      (at typ auth : ℕ) (rest : List ℕ)
      → read_full 4 (arm_read at (conn_of (frame_bytes (frame typ auth) ++ rest)))
        ≡ (armed at rest, some (frame_bytes (frame typ auth)))
  unfolding read_full arm_read frame
  read_hello at typ auth rest = ground arith

  passes_bare :
      (typ at now : ℕ) (extra : List ℕ)
      → with_secret hmac (frame typ 0) now (ok none) (armed at extra)
        ≡ (let_in none (frame typ 0) extra, dispatches typ)
  unfolding with_secret verdict_of server_handshake clear_both frame
  passes_bare typ at now extra = ground arith

  took : (p more : List ℕ) → length p ≡ 32 → take 32 (p ++ more) ≡ p
  took p more h = rw h at (take-append p more)

  left : (p more : List ℕ) → length p ≡ 32 → drop 32 (p ++ more) ≡ more
  left p more h = rw h at (drop-append p more)

  passes_proof :
      (s : List ℕ) (typ at now : ℕ) (extra : List ℕ)
      → TagLength hmac
      → with_secret hmac
          (frame typ 1)
          now
          (ok (some s))
          (armed at (mac_proof hmac s (frame typ 1) ++ extra))
        ≡ (let_in (some s) (frame typ 1) extra, dispatches typ)
  unfolding with_secret verdict_of server_handshake read_full arm_both clear_both write frame
  passes_proof s typ at now extra sized =
      let f = frame typ 1 in
      let p = mac_proof hmac s f in
      let psized : length p ≡ 32 = unfold mac_proof in sized s (proof_message label_mac f) in
      ground (
        arith,
        took p extra psized,
        left p extra psized,
        length-append p extra,
        psized,
        verify_iff p p,
      )

  module _ (clean : String → String) where
    framed-hello :
        (path : String) (v : Arrival) (typ auth : ℕ) (ms : Option (List ℕ)) (at : ℕ) (rest : List ℕ)
        (l : Latched) (r : Conn × Verdict)
        → known_frame (frame typ auth) ≡ true
        → (load_latched clean path v.file l).1 ≡ ok ms
        → with_secret hmac (frame typ auth) v.now (ok ms) (armed at rest) ≡ r
        → framed hmac clean path v.file v.now (armed at rest, some (frame_bytes (frame typ auth))) l
          ≡ ((load_latched clean path v.file l).0, r.0, r.1)
    unfolding framed frame
    framed-hello path v typ auth ms at rest l r k e h =
        rw k (rw e (ap (λ x. ((load_latched clean path v.file l).0, x.0, x.1)) h))

    admit-hello :
        (path : String) (v : Arrival) (typ : ℕ) (extra : List ℕ) (ms : Option (List ℕ))
        (l : Latched)
        → TagLength hmac
        → (load_latched clean path v.file l).1 ≡ ok ms
        → admit hmac clean path v.file v.now (hello ms typ extra) l ≡ (
          (load_latched clean path v.file l).0,
          let_in ms (auth_frame typ ms) extra,
          dispatches typ,
        )
    unfolding admit auth_frame client_hello write
    admit-hello path v typ extra none l sized e =
        let at = v.now + 5_000_000_000 in
        ap (λ rd. framed hmac clean path v.file v.now rd l) (read_hello at typ 0 extra)
        ∙ framed-hello path v typ 0 none at extra l
            (let_in none (frame typ 0) extra, dispatches typ) (unfold frame in refl) e
            (passes_bare typ at v.now extra)
    admit-hello path v typ extra (some s) l sized e =
        let at = v.now + 5_000_000_000 in
        let rest = mac_proof hmac s (frame typ 1) ++ extra in
        ap (λ rd. framed hmac clean path v.file v.now rd l) (read_hello at typ 1 rest)
        ∙ framed-hello path v typ 1 (some s) at rest l
            (let_in (some s) (frame typ 1) extra, dispatches typ) (unfold frame in refl) e
            (passes_proof s typ at v.now extra sized)

    -- The agent dispatches a Mac that holds the same secret as the guest, or none as the guest has none,
    -- by the type of its frame: what rode along with the hello is left to be read, no deadline is left on
    -- the connection, and the agent has written its proof and no more. Tags have 32 bytes.
    pub handle_transport_conn-hello :
        (path : String) (v : Arrival) (typ : ℕ) (extra : List ℕ) (ms : Option (List ℕ)) (a : Agent)
        → TagLength hmac
        → (load_latched clean path v.file a.latched).1 ≡ ok ms
        → handle_transport_conn hmac clean path v (hello ms typ extra) a
          ≡ dispatch v.dials typ v.conn
              (let_in ms (auth_frame typ ms) extra)
              (record a { latched = (load_latched clean path v.file a.latched).0 })
    unfolding handle_transport_conn settle
    handle_transport_conn-hello path v typ extra ms a sized e =
        ap (λ (r : Latched × Conn × Verdict). settle v r.2 r.1 (record a { latched = r.0 }))
          (admit-hello path v typ extra ms a.latched sized e)
