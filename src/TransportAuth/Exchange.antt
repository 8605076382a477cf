-- ===== src/TransportAuth/Exchange.antt =====
-- The two halves of handshake.go joined by a wire.
use mathlib.Core.Path.{subst}
use drawbridge.Base.{
  ℕ, ◌≡◌, refl, sym, ap, ◌∙◌, Bool, true, false, Option, none, some, List, [], ◌∷◌, ◌++◌, arith,
  if◌then◌else◌, length, take, get_or, take-append, length-append,
}
use mathlib.Core.List.{append-nil}
use drawbridge.TransportAuth.Frame.{
  TypeFrame, frame, proof_message, label_mac, label_agent, frame_bytes, frame_len, auth_frame,
  verify, mac_proof, agent_proof,
}
use drawbridge.TransportAuth.Handshake.{
  Conn, Outcome, passed, refused, peer_unauthenticated, proof_mismatch, no_local_secret, incomplete,
  write, read_full, arm_read, clear_read, arm_both, clear_both, client_hello, await_agent_proof,
  server_handshake,
}

-- A fresh connection on which the peer sends the given bytes.
abbrev pub conn_of : List ℕ → Conn
conn_of bs = record {
  incoming = bs;
  written = [];
  read_deadline = none;
  write_deadline = none;
  takes_deadline = true;
  takes_write = true;
}

-- The bytes of all segments.
abbrev pub wire : List (List ℕ) → List ℕ
wire [] = []
wire (s ∷ []) = s
wire (s ∷ t ∷ ss) = s ++ wire (t ∷ ss)

-- The agent's read of the type frame.
abbrev pub frame_of : Option (List ℕ) → TypeFrame
frame_of none = frame 0 0
frame_of (some bs) = record {
  typ = get_or bs 0 0;
  auth = get_or bs 1 0;
  byte2 = get_or bs 2 0;
  byte3 = get_or bs 3 0;
}

module _ (hmac : List ℕ → List ℕ → List ℕ) where
  -- The Mac's outcome, the agent's, and what the agent has not read when it dispatches.
  abbrev pub exchange : Option (List ℕ) → Option (List ℕ) → ℕ → List ℕ → Outcome × Outcome × List ℕ
  exchange ms as' typ extra =
      let (m, f, ok) = client_hello hmac ms typ extra (conn_of []) in
      let (a, got) = read_full frame_len (conn_of (wire m.written)) in
      let (a', ao) = server_handshake hmac as' (frame_of got) 0 0 a in
      let (m', mo) = await_agent_proof hmac ms f 0 0 (conn_of (wire a'.written)) in
      (mo, ao, a'.incoming)

  -- What the two secrets lead to: `f` is the Mac's frame.
  abbrev pub agreement : Option (List ℕ) → Option (List ℕ) → TypeFrame → Outcome × Outcome
  agreement none none f = (passed, passed)
  agreement none (some t) f = (passed, refused peer_unauthenticated)
  agreement (some s) none f = (refused incomplete, refused no_local_secret)
  agreement (some s) (some t) f =
      if verify (mac_proof hmac t f) (mac_proof hmac s f)
      then (
        if verify (agent_proof hmac s f) (agent_proof hmac t f)
            then passed
            else refused proof_mismatch,
        passed,
      )
      else (refused incomplete, refused proof_mismatch)

  -- crypto/hmac with SHA-256: a tag has 32 bytes.
  abbrev pub TagLength : Type 0
  TagLength = (key msg : List ℕ) → length (hmac key msg) ≡ 32

  take_proof : (p more : List ℕ) → length p ≡ 32 → take 32 (p ++ more) ≡ p
  take_proof p more h = rw h at (take-append p more)

  read_frame :
      (f : TypeFrame) (rest : List ℕ)
      → read_full frame_len (conn_of (frame_bytes f ++ rest)) ≡ (conn_of rest, some (frame_bytes f))
  unfolding read_full
  read_frame f rest = ground arith

  -- The agent's half after the frame, on a proof `p`.
  agent_half :
      (t : List ℕ) (f : TypeFrame) (p more : List ℕ)
      → f.auth ≡ 1
      → length p ≡ 32
      → let r = server_handshake hmac (some t) f 0 0 (conn_of (p ++ more)) in
        (r.1 ≡ (if verify (mac_proof hmac t f) p then passed else refused proof_mismatch))
        × (r.0.written ≡ (if verify (mac_proof hmac t f) p then agent_proof hmac t f ∷ [] else []))
  unfolding server_handshake read_full arm_both clear_both write
  agent_half t f p more one sized = ground (arith, take_proof p more sized, length-append p more)

  -- The Mac's half on what the agent wrote.
  mac_half :
      (s : List ℕ) (f : TypeFrame) (q : List ℕ)
      → length q ≡ 32
      → (await_agent_proof hmac (some s) f 0 0 (conn_of (wire (q ∷ [])))).1
        ≡ (if verify (agent_proof hmac s f) q then passed else refused proof_mismatch)
  unfolding await_agent_proof read_full arm_read clear_read
  mac_half s f q sized = ground (arith, take_proof q [] sized, append-nil q)

  mac_half_silence :
      (s : List ℕ) (f : TypeFrame)
      → (await_agent_proof hmac (some s) f 0 0 (conn_of [])).1 ≡ refused incomplete
  unfolding await_agent_proof read_full arm_read clear_read
  mac_half_silence s f = ground arith

  both_open :
      (typ : ℕ) (extra : List ℕ)
      → ((exchange none none typ extra).0 ≡ passed) × ((exchange none none typ extra).1 ≡ passed)
  unfolding client_hello write auth_frame frame await_agent_proof server_handshake read_full
  both_open typ extra = ground arith

  agent_secret :
      (t : List ℕ) (typ : ℕ) (extra : List ℕ)
      → ((exchange none (some t) typ extra).0 ≡ passed)
        × ((exchange none (some t) typ extra).1 ≡ refused peer_unauthenticated)
  unfolding client_hello write auth_frame frame await_agent_proof server_handshake read_full
  agent_secret t typ extra = ground arith

  mac_secret :
      (s : List ℕ) (typ : ℕ) (extra : List ℕ)
      → ((exchange (some s) none typ extra).0 ≡ refused incomplete)
        × ((exchange (some s) none typ extra).1 ≡ refused no_local_secret)
  unfolding client_hello write auth_frame frame await_agent_proof server_handshake read_full
      arm_read clear_read
  mac_secret s typ extra = ground arith

  -- The Mac's half after the agent's verdict on its proof.
  mac_verdict :
      (s t : List ℕ) (f : TypeFrame) (v : Bool)
      → TagLength
      → (await_agent_proof hmac
          (some s)
          f
          0
          0
          (conn_of (wire (if v then agent_proof hmac t f ∷ [] else [])))).1
        ≡ (if v
            then (if verify (agent_proof hmac s f) (agent_proof hmac t f)
                then passed
                else refused proof_mismatch)
            else refused incomplete)
  mac_verdict s t f false sized = mac_half_silence s f
  mac_verdict s t f true sized =
      mac_half s f (agent_proof hmac t f)
        (unfold agent_proof in sized t (proof_message label_agent f))

  -- The exchange from the agent's read of the frame on.
  abbrev answers : List ℕ → Option (List ℕ) → TypeFrame → Conn × Option (List ℕ) → Outcome × Outcome
  answers s as' f (a, got) =
      let (a', ao) = server_handshake hmac as' (frame_of got) 0 0 a in
      let (m', mo) = await_agent_proof hmac (some s) f 0 0 (conn_of (wire a'.written)) in (mo, ao)

  both_pairs :
      (v w : Bool)
      → let r : Outcome × Outcome =
          if v
          then (if w then passed else refused proof_mismatch, passed)
          else (refused incomplete, refused proof_mismatch) in
        (r.0 ≡ (if v then (if w then passed else refused proof_mismatch) else refused incomplete))
        × (r.1 ≡ (if v then passed else refused proof_mismatch))
  both_pairs false w = (refl, refl)
  both_pairs true w = (refl, refl)

  both_secret :
      (s t : List ℕ) (typ : ℕ) (extra : List ℕ)
      → TagLength
      → let f = frame typ 1 in
        ((exchange (some s) (some t) typ extra).0 ≡ (agreement (some s) (some t) f).0)
        × ((exchange (some s) (some t) typ extra).1 ≡ (agreement (some s) (some t) f).1)
  unfolding client_hello write auth_frame frame
  both_secret s t typ extra sized =
      let f = frame typ 1 in
      let p = mac_proof hmac s f in
      let psized : length p ≡ 32 = unfold mac_proof in sized s (proof_message label_mac f) in
      let half = agent_half t f p extra refl psized in
      let v = verify (mac_proof hmac t f) p in
      let w = verify (agent_proof hmac s f) (agent_proof hmac t f) in
      let both = both_pairs v w in
      subst
        (λ rd.
          ((answers s (some t) f rd).0 ≡ (agreement (some s) (some t) f).0)
          × ((answers s (some t) f rd).1 ≡ (agreement (some s) (some t) f).1))
        (sym (read_frame f (p ++ extra)))
        (
          ap (λ x. (await_agent_proof hmac (some s) f 0 0 (conn_of (wire x))).1) half.1
              ∙ mac_verdict s t f v sized
              ∙ sym both.0,
          half.0 ∙ sym both.1,
        )

  -- Over an honest wire the two sides come to the outcomes that their own secrets decide: without
  -- secrets both pass; a secret on one side alone is refused by the agent, whose silence the Mac
  -- refuses if the secret is its own; with two secrets the agent passes if their tags of the Mac's
  -- frame agree, and then the Mac by the agent's tag. Tags have 32 bytes.
  pub exchange-agreement :
      (ms as' : Option (List ℕ)) (typ : ℕ) (extra : List ℕ)
      → TagLength
      → ((exchange ms as' typ extra).0 ≡ (agreement ms as' (auth_frame typ ms)).0)
        × ((exchange ms as' typ extra).1 ≡ (agreement ms as' (auth_frame typ ms)).1)
  unfolding auth_frame frame client_hello write
  exchange-agreement none none typ extra sized = both_open typ extra
  exchange-agreement none (some t) typ extra sized = agent_secret t typ extra
  exchange-agreement (some s) none typ extra sized = mac_secret s typ extra
  exchange-agreement (some s) (some t) typ extra sized = both_secret s t typ extra sized
