-- ===== src/Primitives/Bytes.antt =====
-- Big-endian byte strings as numbers: the reading that the documentation of `to_big_endian` and
-- `from_big_endian` gives.
pub mod Bounds
use solenoid.Base.{
  ℕ, zero, suc, ◌+◌, ◌*◌, ◌/◌, ◌%◌, ◌^◌, ◌<◌, ◌≡◌, refl, ◌∙◌, List, [], ◌∷◌, ◌++◌, arith, length,
  length-append,
}
use native.Mathlib.Nat.{pow-suc}

-- The number that the bytes `bs` stand for, behind the digits that were read already.
unfoldable pub be_value_from : ℕ → List ℕ → ℕ
be_value_from acc [] = acc
be_value_from acc (b ∷ bs) = be_value_from (acc * 256 + b) bs

unfoldable pub be_value : List ℕ → ℕ
unfolding be_value_from
be_value bs = be_value_from 0 bs

-- The last `n` bytes of `w`.
unfoldable pub be_bytes : ℕ → ℕ → List ℕ
be_bytes zero w = []
be_bytes (suc n) w = be_bytes n (w / 256) ++ (w % 256) ∷ []

pub length-be_bytes : (n w : ℕ) → length (be_bytes n w) ≡ n
unfolding be_bytes
length-be_bytes zero w = refl
length-be_bytes (suc n) w =
    omega
      (arith, length-append (be_bytes n (w / 256)) ((w % 256) ∷ []), length-be_bytes n (w / 256))

be_value_from-append :
    (acc b : ℕ) (xs : List ℕ) → be_value_from acc (xs ++ b ∷ []) ≡ be_value_from acc xs * 256 + b
unfolding be_value_from
be_value_from-append acc b [] = refl
be_value_from-append acc b (x ∷ xs) = be_value_from-append (acc * 256 + x) b xs

pub be_value-be_bytes : (n w : ℕ) → w < 256 ^ n → be_value (be_bytes n w) ≡ w
unfolding be_value be_bytes be_value_from
be_value-be_bytes zero w h = omega arith
be_value-be_bytes (suc n) w h =
    be_value_from-append 0 (w % 256) (be_bytes n (w / 256))
    ∙ omega (arith, be_value-be_bytes n (w / 256) (omega (arith, pow-suc 256 n)))
