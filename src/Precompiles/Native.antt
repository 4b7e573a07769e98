-- ===== src/Precompiles/Native.antt =====
-- The laws of the interface can be met: stand-ins for the crates, which the witnesses use. The
-- numbers are computed; the hashes, the signatures and the curves are placeholders.
use solenoid.Base.{
  none, some, ◌-◌, leb, if◌then◌else◌, ℕ, zero, suc, ◌%◌, ◌^◌, ◌<◌, ◌≤◌, ◌≡◌, refl, ◌∙◌, inl, inr,
  false, Bool-cases, none, List, [], ◌∷◌, length, arith, ◌==◌, leb,
}
use native.Mathlib.Nat.{pow-suc, pow-le-pow_right, mul-le-mul_right}
use solenoid.Primitives.Bytes.{be_value, be_bytes, length-be_bytes, be_value-be_bytes}
use solenoid.Primitives.Bytes.Bounds.{be_value-cons}
use solenoid.Address.{skip_zeros}
use solenoid.Address.Payload.{be_value-skip_zeros}
use solenoid.Precompiles.Interface.{Crates}

below_power : (n : ℕ) → n < 256 ^ n
below_power zero = omega arith
below_power (suc n) = omega (arith, below_power n, pow-suc 256 n)

abbrev minimal_bytes : ℕ → List ℕ
minimal_bytes n = skip_zeros (be_bytes n n)

pub minimal_bytes_value : (n : ℕ) → be_value (minimal_bytes n) ≡ n
minimal_bytes_value n = be_value-skip_zeros (be_bytes n n) ∙ be_value-be_bytes n n (below_power n)

-- Without leading zeros a string of bytes is no longer than its number asks for.
first_power : (b : ℕ) (bytes : List ℕ) → 0 < b → 256 ^ length bytes ≤ be_value (b ∷ bytes)
first_power b bytes h =
    omega (arith, be_value-cons b bytes, mul-le-mul_right {m = 1} {n = b} (256 ^ length bytes) h)

not_longer : (size k n : ℕ) → 256 ^ size ≤ n → n < 256 ^ k → suc size ≤ k
not_longer size k n h below = elim (Bool-cases (leb k size)) [
  | inl le ↦
      let fits : k ≤ size = ground arith in
      absurd (omega (arith, h, below, pow-le-pow_right {n = 256} (omega arith) fits))
  | inr gt ↦ ground arith
]

length-skip_zeros :
    (bytes : List ℕ) (k : ℕ) → 0 < k → be_value bytes < 256 ^ k → length (skip_zeros bytes) ≤ k
unfolding skip_zeros
length-skip_zeros [] k h below = omega arith
length-skip_zeros (b ∷ bytes) k h below = elim (Bool-cases (b == 0)) [
  | inl z ↦
      rw (skip_zeros, z) (length-skip_zeros bytes k h (omega (arith, below, be_value-cons b bytes)))
  | inr z ↦
      rw (skip_zeros, z)
        (not_longer (length bytes) k (be_value (b ∷ bytes)) (first_power b bytes (ground arith))
          below)
]

pub minimal_bytes_size : (n k : ℕ) → 0 < k → n < 256 ^ k → length (minimal_bytes n) ≤ k
minimal_bytes_size n k h below =
    length-skip_zeros (be_bytes n n) k h
      (omega (arith, below, be_value-be_bytes n n (below_power n)))

pub modulo_law : (b e m : ℕ) → 0 < m → (b ^ e) % m ≡ (b ^ e) % m
modulo_law b e m h = refl

instance abbrev pub native_crates : Crates
native_crates = record {
  sha256 = λ bs. be_bytes 32 (be_value bs);
  sha256_size = λ bs. length-be_bytes 32 (be_value bs);
  ripemd160 = λ bs. be_bytes 20 (be_value bs);
  ripemd160_size = λ bs. length-be_bytes 20 (be_value bs);
  k256_accepts = λ signature. false;
  k256_recover = λ hash signature id. none;
  p256_accepts = λ r s. false;
  p256_on_curve = λ x y. false;
  p256_verify = λ hash r s x y. false;
  biguint_sub = λ a b. if leb b a then some (a - b) else none;
  biguint_sub_law = λ a b. refl;
  modpow = λ b e m. (b ^ e) % m;
  modpow_law = modulo_law;
  to_bytes_be = minimal_bytes;
  to_bytes_be_value = minimal_bytes_value;
  to_bytes_be_size = minimal_bytes_size;
  fq = be_value;
  fr = be_value;
  fq_bytes = be_bytes 32;
  fq_bytes_size = length-be_bytes 32;
  g1_new = λ x y. none;
  g2_new = λ x y. none;
  g1_add = λ p q. none;
  g1_mul = λ p k. none;
  pairing_is_zero = λ pairs. false;
  bls_g1_deserialize = λ bytes. none;
  bls_fr = be_value;
  bls_g1_generator = [];
  bls_g2_generator = [];
  bls_g1_mul = λ p k. p;
  bls_g2_mul = λ p k. p;
  bls_g1_sub = λ p q. p;
  bls_g2_sub = λ p q. p;
  bls_pairing = λ p q. 0;
}
