-- ===== src/Dispatch/Authentic.antt =====
-- What a connection must have brought before the agent does anything for it.
use mathlib.Core.Path.{subst}
use drawbridge.Base.{
  ℕ, ◌+◌, String, ◌≡◌, ◌⊎◌, inl, inr, refl, Bool, true, false, Option, none, some, List, ◌∷◌, arith,
  take, drop, Bool-cases, Option-cases,
}
use drawbridge.Base.Eq.{string_eq}
use drawbridge.TransportAuth.Frame.{TypeFrame, proof_len, mac_proof}
use drawbridge.TransportAuth.Handshake.{
  Conn, Cause, Outcome, passed, refused, io_error, read_full, arm_read, server_handshake,
}
use drawbridge.TransportAuth.Secret.{
  File, absent, unreadable, content, parse, load, Loaded, ok, err,
}
use drawbridge.TransportAuth.Latch.{Latched, configured, load_latched}
use drawbridge.TransportAuth.Outcomes.{server_handshake_passes}
use drawbridge.Dispatch.Admit.{
  Verdict, drops, refuses, dispatches, read_frame, known_frame, with_secret, verdict_of, framed,
  admit,
}
use drawbridge.Dispatch.{Peer, Agent, Arrival, handle_transport_conn, settle, refuse_conn}

abbrev pub opening : Conn → TypeFrame
opening c = read_frame (take 4 c.incoming)

abbrev is_dispatch : Verdict → Bool
is_dispatch drops = false
is_dispatch (refuses typ cause) = false
is_dispatch (dispatches typ) = true

module _ (hmac : List ℕ → List ℕ → List ℕ) where
  -- The frame names the scheme of the proofs, and the proof of the file's secret follows it.
  abbrev pub Proved : File → Conn → Type 0
  Proved file c =
      (s : List ℕ) × (load file ≡ ok s)
      × (known_frame (opening c) ≡ true)
      × (take proof_len (drop 4 c.incoming) ≡ mac_proof hmac s (opening c))

  -- The verdict, if it is to dispatch, was reached with a secret on which the handshake passed.
  abbrev PassedWith : TypeFrame → ℕ → Loaded (Option (List ℕ)) → Conn → Type 0
  PassedWith f now loaded c =
      (sec : Option (List ℕ)) × (loaded ≡ ok sec)
      × ((server_handshake hmac sec f 5_000_000_000 now c).1 ≡ passed)

  verdict_of-passes :
      (f : TypeFrame) (c : Conn) (o : Outcome)
      → is_dispatch (verdict_of f (c, o)).1 ≡ true
      → o ≡ passed
  unfolding verdict_of
  verdict_of-passes f c passed h = refl
  verdict_of-passes f c (refused cause) h = absurd (ground (arith, h))
  verdict_of-passes f c io_error h = absurd (ground (arith, h))

  with_secret-passes :
      (f : TypeFrame) (now : ℕ) (loaded : Loaded (Option (List ℕ))) (c : Conn)
      → is_dispatch (with_secret hmac f now loaded c).1 ≡ true
      → PassedWith f now loaded c
  unfolding with_secret
  with_secret-passes f now (err e) c h = absurd (ground (arith, h))
  with_secret-passes f now (ok sec) c h =
      let r = server_handshake hmac sec f 5_000_000_000 now c in
      (sec, refl, verdict_of-passes f r.0 r.1 h)

-- What a read that yields a secret, or none, says of the file once the path is configured.
abbrev Holds : File → Option (List ℕ) → Type 0
Holds file sec = (s : List ℕ) × (sec ≡ some s) × (load file ≡ ok s)

load_latched-configured :
    (clean : String → String) (path : String) (file : File) (l : Latched) (sec : Option (List ℕ))
    → configured clean path l ≡ true
    → (load_latched clean path file l).1 ≡ ok sec
    → Holds file sec
unfolding load_latched configured load
load_latched-configured clean path absent l sec h e = absurd (ground (arith, h, e))
load_latched-configured clean path unreadable l sec h e = absurd (ground (arith, h, e))
load_latched-configured clean path (content b) l sec h e = elim (Option-cases (parse b)) [
  | inl q ↦ absurd (ground (arith, q, h, e))
  | inr (s, q) ↦ (s, ground (arith, q, h, e), ground (arith, q))
]

read_full-arm_read :
    (n at : ℕ) (c : Conn) (bs : List ℕ)
    → (read_full n (arm_read at c)).1 ≡ some bs
    → (bs ≡ take n c.incoming) × ((read_full n (arm_read at c)).0.incoming ≡ drop n c.incoming)
unfolding read_full arm_read
read_full-arm_read n at c bs h = ground (arith, h)

module _ (hmac : List ℕ → List ℕ → List ℕ) (clean : String → String) where
  -- What follows a frame that is to be dispatched.
  abbrev Follows : File → TypeFrame → List ℕ → Type 0
  Follows file f rest =
      (s : List ℕ) × (load file ≡ ok s)
      × (known_frame f ≡ true)
      × (take proof_len rest ≡ mac_proof hmac s f)

  with_secret-Follows :
      (path : String) (file : File) (l : Latched) (f : TypeFrame) (now : ℕ) (c : Conn)
      → configured clean path l ≡ true
      → known_frame f ≡ true
      → is_dispatch (with_secret hmac f now (load_latched clean path file l).1 c).1 ≡ true
      → Follows file f c.incoming
  with_secret-Follows path file l f now c conf k h =
      let p = with_secret-passes hmac f now (load_latched clean path file l).1 c h in
      let held = load_latched-configured clean path file l p.0 conf p.1 in
      elim (server_handshake_passes hmac p.0 f 5_000_000_000 now c p.2) [
        | inl bare ↦ absurd (ground (arith, bare.0, held.1))
        | inr (s, e, authed, proof, w) ↦ (s, ground (arith, e, held.1, held.2), k, proof)
      ]

  framed-Follows :
      (path : String) (file : File) (now : ℕ) (c : Conn) (o : Option (List ℕ)) (l : Latched)
      → configured clean path l ≡ true
      → is_dispatch (framed hmac clean path file now (c, o) l).2 ≡ true
      → (bs : List ℕ) × (o ≡ some bs) × Follows file (read_frame bs) c.incoming
  unfolding framed
  framed-Follows path file now c none l conf h = absurd (ground (arith, h))
  framed-Follows path file now c (some bs) l conf h =
      elim (Bool-cases (known_frame (read_frame bs))) [
        | inl k ↦
            (bs, refl, with_secret-Follows path file l (read_frame bs) now c conf k (rw k at h))
        | inr k ↦ absurd (ground (arith, k, h))
      ]

  pub admit-Proved :
      (path : String) (file : File) (now : ℕ) (c : Conn) (l : Latched)
      → configured clean path l ≡ true
      → is_dispatch (admit hmac clean path file now c l).2 ≡ true
      → Proved hmac file c
  unfolding admit
  admit-Proved path file now c l conf h =
      let r = read_full 4 (arm_read (now + 5_000_000_000) c) in
      let (bs, e, (s, held, k, proof)) = framed-Follows path file now r.0 r.1 l conf h in
      let (took, left) = read_full-arm_read 4 (now + 5_000_000_000) c bs e in
      (
        s,
        held,
        subst (λ x. known_frame (read_frame x) ≡ true) took k,
        subst (λ x. take proof_len (drop 4 c.incoming) ≡ mac_proof hmac s (read_frame x)) took
            (subst (λ y. take proof_len y ≡ mac_proof hmac s (read_frame bs)) left proof),
      )

  -- Nothing is done for the connection: it is closed, and at most a line is logged.
  abbrev pub Untouched : ℕ → Agent → Agent → Type 0
  Untouched conn a b =
      (b.pool ≡ a.pool)
      × (b.reserver ≡ a.reserver)
      × (b.handlers ≡ a.handlers)
      × (b.shut_conns ≡ conn ∷ a.shut_conns)

  refuse_conn-Untouched :
      (now conn : ℕ) (p : Peer) (typ : ℕ) (cause : Option Cause) (a : Agent)
      → Untouched conn a (refuse_conn now conn p typ cause a)
  unfolding refuse_conn
  refuse_conn-Untouched now conn p typ cause a = (refl, refl, refl, refl)

  settle-Untouched :
      (v : Arrival) (verdict : Verdict) (c : Conn) (a : Agent)
      → is_dispatch verdict ≡ false
      → Untouched v.conn a (settle v verdict c a)
  unfolding settle
  settle-Untouched v drops c a h = (refl, refl, refl, refl)
  settle-Untouched v (refuses typ cause) c a h =
      refuse_conn-Untouched v.now v.conn v.peer typ cause a
  settle-Untouched v (dispatches typ) c a h = absurd (ground (arith, h))

  -- Once the path of its secret is configured, the agent either closes a connection and does nothing
  -- for it, or the file holds a secret, and the connection opened with a frame of the known form and
  -- then the Mac's proof of that secret for that frame.
  pub handle_transport_conn-Proved :
      (path : String) (v : Arrival) (c : Conn) (a : Agent)
      → configured clean path a.latched ≡ true
      → Untouched v.conn a (handle_transport_conn hmac clean path v c a) ⊎ Proved hmac v.file c
  unfolding handle_transport_conn
  handle_transport_conn-Proved path v c a conf =
      let r = admit hmac clean path v.file v.now c a.latched in
      elim (Bool-cases (is_dispatch r.2)) [
        | inl e ↦ inr (admit-Proved path v.file v.now c a.latched conf e)
        | inr e ↦ inl (settle-Untouched v r.2 r.1 (record a { latched = r.0 }) e)
      ]
