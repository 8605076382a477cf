-- ===== src/UdpFrame/Numbers.antt =====
-- encoding/binary's big-endian numbers of any width.
use drawbridge.Base.{
  ℕ, zero, suc, ◌+◌, ◌*◌, ◌/◌, ◌%◌, ◌^◌, ◌<◌, ◌≡◌, refl, ◌∙◌, List, [], ◌∷◌, ◌++◌, length,
  length-append, arith,
}

unfoldable pub be_bytes : ℕ → ℕ → List ℕ
be_bytes zero n = []
be_bytes (suc k) n = be_bytes k (n / 256) ++ n % 256 ∷ []

unfoldable pub be_value : ℕ → List ℕ → ℕ
be_value acc [] = acc
be_value acc (b ∷ bs) = be_value (acc * 256 + b) bs

be_value-append :
    (acc : ℕ) (xs ys : List ℕ) → be_value acc (xs ++ ys) ≡ be_value (be_value acc xs) ys
unfolding be_value
be_value-append acc [] ys = refl
be_value-append acc (x ∷ xs) ys = be_value-append (acc * 256 + x) xs ys

-- What is written in k bytes, if it fits, reads back.
pub be_value-be_bytes : (k n : ℕ) → n < 256 ^ k → be_value 0 (be_bytes k n) ≡ n
unfolding be_bytes be_value
be_value-be_bytes zero n h = omega arith
be_value-be_bytes (suc k) n h =
    be_value-append 0 (be_bytes k (n / 256)) (n % 256 ∷ [])
    ∙ omega (arith, be_value-be_bytes k (n / 256) (omega arith))

pub length-be_bytes : (k n : ℕ) → length (be_bytes k n) ≡ k
unfolding be_bytes
length-be_bytes zero n = refl
length-be_bytes (suc k) n =
    length-append (be_bytes k (n / 256)) (n % 256 ∷ []) ∙ omega (arith, length-be_bytes k (n / 256))
