-- ===== src/Precompiles/Interface.antt =====
-- The operations of the crates that src/precompiles.rs calls: sha2, ripemd, k256, p256, num-bigint,
-- ark-bn254, ark-bls12-381. A field element is a number. A point of BN254 is its affine coordinates,
-- `none` at infinity; a point of BLS12-381 is its encoding.
use solenoid.Base.{
  ℕ, ◌-◌, leb, if◌then◌else◌, ◌%◌, ◌^◌, ◌≤◌, ◌<◌, ◌≡◌, Bool, Option, none, some, List, length,
}
use solenoid.Primitives.Bytes.{be_value}

abbrev pub G1 : Type 0
G1 = Option (ℕ × ℕ)

-- Coordinates in the quadratic extension: the two coefficients of each.
abbrev pub G2 : Type 0
G2 = Option ((ℕ × ℕ) × (ℕ × ℕ))

abbrev pub Point : Type 0
Point = List ℕ

pub record Crates : Type 0 where
  -- sha2 and ripemd
  pub sha256 : List ℕ → List ℕ
  pub sha256_size : (bs : List ℕ) → length (sha256 bs) ≡ 32
  pub ripemd160 : List ℕ → List ℕ
  pub ripemd160_size : (bs : List ℕ) → length (ripemd160 bs) ≡ 20
  -- k256: `Signature::from_slice`, and `recover_from_prehash` to the uncompressed point
  pub k256_accepts : List ℕ → Bool
  pub k256_recover : List ℕ → List ℕ → ℕ → Option (List ℕ)
  -- p256: `Signature::from_scalars`, `PublicKey::from_encoded_point`, `verify_prehash`
  pub p256_accepts : List ℕ → List ℕ → Bool
  pub p256_on_curve : List ℕ → List ℕ → Bool
  pub p256_verify : List ℕ → List ℕ → List ℕ → List ℕ → List ℕ → Bool
  -- num-bigint: the difference, which panics, `none`, below 0; `modpow`, and `to_bytes_be` without leading zeros
  pub biguint_sub : ℕ → ℕ → Option ℕ
  pub biguint_sub_law : (a b : ℕ) → biguint_sub a b ≡ (if leb b a then some (a - b) else none)
  pub modpow : ℕ → ℕ → ℕ → ℕ
  pub modpow_law : (b e m : ℕ) → 0 < m → modpow b e m ≡ (b ^ e) % m
  pub to_bytes_be : ℕ → List ℕ
  pub to_bytes_be_value : (n : ℕ) → be_value (to_bytes_be n) ≡ n
  pub to_bytes_be_size : (n k : ℕ) → 0 < k → n < 256 ^ k → length (to_bytes_be n) ≤ k
  -- ark-bn254: `from_be_bytes_mod_order`; `new` is `none` where it panics, off the curve
  pub fq : List ℕ → ℕ
  pub fr : List ℕ → ℕ
  pub fq_bytes : ℕ → List ℕ
  pub fq_bytes_size : (x : ℕ) → length (fq_bytes x) ≡ 32
  pub g1_new : ℕ → ℕ → Option (ℕ × ℕ)
  pub g2_new : ℕ × ℕ → ℕ × ℕ → Option ((ℕ × ℕ) × (ℕ × ℕ))
  pub g1_add : G1 → G1 → G1
  pub g1_mul : G1 → ℕ → G1
  pub pairing_is_zero : List (G1 × G2) → Bool
  -- ark-bls12-381
  pub bls_g1_deserialize : List ℕ → Option Point
  pub bls_fr : List ℕ → ℕ
  pub bls_g1_generator : Point
  pub bls_g2_generator : Point
  pub bls_g1_mul : Point → ℕ → Point
  pub bls_g2_mul : Point → ℕ → Point
  pub bls_g1_sub : Point → Point → Point
  pub bls_g2_sub : Point → Point → Point
  pub bls_pairing : Point → Point → ℕ
