-- ===== src/TransportAuth/Frame.antt =====
-- transportauth.go: the type frame and the proofs. HMAC-SHA256 is crypto/hmac's, a parameter.

use drawbridge.Base.Bytes.{bytes}
use drawbridge.Base.{
  ℕ, ◌≡◌, Option, none, some, List, [], ◌∷◌, ◌++◌, Bool, true, false, ◌&&◌, eqb, arith, ◌↔◌,
}

abbrev pub secret_len : ℕ
secret_len = 32

abbrev pub frame_len : ℕ
frame_len = 4

-- sha256.Size
abbrev pub proof_len : ℕ
proof_len = 32

abbrev pub auth_none : ℕ
auth_none = 0

abbrev pub auth_static_hmac_v1 : ℕ
auth_static_hmac_v1 = 1

-- [FrameLen]byte
pub record TypeFrame : Type 0 where
  pub typ : ℕ
  pub auth : ℕ
  pub byte2 : ℕ
  pub byte3 : ℕ

abbrev pub frame_bytes : TypeFrame → List ℕ
frame_bytes f = f.typ ∷ f.auth ∷ f.byte2 ∷ f.byte3 ∷ []

unfoldable pub frame : ℕ → ℕ → TypeFrame
frame typ auth = record { typ = typ; auth = auth; byte2 = 0; byte3 = 0 }

-- A secret is its bytes; `none` is the nil *Secret.
unfoldable pub auth_frame : ℕ → Option (List ℕ) → TypeFrame
unfolding frame
auth_frame typ none = frame typ auth_none
auth_frame typ (some sec) = frame typ auth_static_hmac_v1

abbrev pub label_mac : List ℕ
label_mac = bytes "drawbridge-transport-v1:mac"

abbrev pub label_agent : List ℕ
label_agent = bytes "drawbridge-transport-v1:agent"

-- What a proof signs.
abbrev pub proof_message : List ℕ → TypeFrame → List ℕ
proof_message label f = label ++ frame_bytes f

-- hmac.Equal
unfoldable pub verify : List ℕ → List ℕ → Bool
verify [] [] = true
verify [] (b ∷ bs) = false
verify (a ∷ as') [] = false
verify (a ∷ as') (b ∷ bs) = eqb a b && verify as' bs

-- `hmac key message`
module _ (hmac : List ℕ → List ℕ → List ℕ) where
  unfoldable pub mac_proof : List ℕ → TypeFrame → List ℕ
  mac_proof sec f = hmac sec (proof_message label_mac f)

  unfoldable pub agent_proof : List ℕ → TypeFrame → List ℕ
  agent_proof sec f = hmac sec (proof_message label_agent f)

pub verify_iff : (xs ys : List ℕ) → (verify xs ys ≡ true) ↔ (xs ≡ ys)
unfolding verify
verify_iff [] [] = ground arith
verify_iff [] (b ∷ bs) = ground arith
verify_iff (a ∷ as') [] = ground arith
verify_iff (a ∷ as') (b ∷ bs) = ground (arith, verify_iff as' bs)
