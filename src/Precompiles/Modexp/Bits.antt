-- ===== src/Precompiles/Modexp/Bits.antt =====
-- The length in bits that prices MODEXP in src/precompiles.rs.
use solenoid.Base.{
  ℕ, zero, suc, ap, sym, subst, ◌+◌, ◌-◌, ◌*◌, ◌^◌, ◌<◌, ◌≤◌, ◌≡◌, refl, true, ◌∙◌, Bool-cases, inl,
  inr, List, [], ◌∷◌, length, ◌==◌, arith,
}
use native.Mathlib.Nat.{pow-suc, mul-le-mul_right, mul_assoc, add-mul}
use solenoid.Primitives.Bytes.{be_value, be_value_from}
use solenoid.Primitives.Bytes.Bounds.{AreBytes, be_value-cons, be_value_bound}
use solenoid.Instr.Bits.{leading_zeros}
use solenoid.Precompiles.Modexp.{bit_len}

-- The bits of one byte.
abbrev bits : ℕ → ℕ
bits b = 8 - leading_zeros b

bits_bound : (b : ℕ) → 0 < b → b < 256 → (b + 1 ≤ 2 ^ bits b) × (2 ^ bits b ≤ 2 * b)
unfolding leading_zeros
bits_bound b h k = ground arith

-- 8 bits for each byte.
power_step : (x : ℕ) → 2 ^ suc (suc (suc (suc (suc (suc (suc (suc x))))))) ≡ 2 ^ x * 256
power_step x = omega (
  arith,
  pow-suc 2 x,
  pow-suc 2 (suc x),
  pow-suc 2 (suc (suc x)),
  pow-suc 2 (suc (suc (suc x))),
  pow-suc 2 (suc (suc (suc (suc x)))),
  pow-suc 2 (suc (suc (suc (suc (suc x))))),
  pow-suc 2 (suc (suc (suc (suc (suc (suc x)))))),
  pow-suc 2 (suc (suc (suc (suc (suc (suc (suc x))))))),
)

power_bytes : (n k : ℕ) → 2 ^ (n * 8 + k) ≡ 2 ^ k * 256 ^ n
power_bytes zero k =
    let none_more : 0 * 8 + k ≡ k = omega arith in ap (λ (j : ℕ). 2 ^ j) none_more ∙ omega arith
power_bytes (suc n) k =
    let more : suc n * 8 + k ≡ suc (suc (suc (suc (suc (suc (suc (suc (n * 8 + k)))))))) =
      omega arith in
    ap (λ (j : ℕ). 2 ^ j) more
    ∙ power_step (n * 8 + k)
    ∙ omega (
      arith,
      power_bytes n k,
      mul_assoc (2 ^ k) (256 ^ n) 256,
      ap (λ (p : ℕ). 2 ^ k * p) (pow-suc 256 n),
    )

empty_value : ¬ (0 < be_value [])
unfolding be_value be_value_from
empty_value h = omega (arith, h)

-- A first byte that is not 0.
first_byte :
    (b rest n power : ℕ)
    → 0 < b
    → b < 256
    → rest < power
    → power ≡ 256 ^ n
    → (b * power + rest < 2 ^ (n * 8 + bits b)) × (2 ^ (n * 8 + bits b) ≤ 2 * (b * power + rest))
first_byte b rest n power positive byte below e =
    let bound = bits_bound b positive byte in
    let facts : 2 ^ (n * 8 + bits b) ≡ 2 ^ bits b * power =
      power_bytes n (bits b) ∙ ap (λ (p : ℕ). 2 ^ bits b * p) (sym e) in
    let above = mul-le-mul_right {m = b + 1} {n = 2 ^ bits b} power bound.0 in
    let under = mul-le-mul_right {m = 2 ^ bits b} {n = 2 * b} power bound.1 in
    let spread = add-mul b 1 power in
    let twice = mul_assoc 2 b power in
    (omega (arith, facts, above, below, spread), omega (arith, facts, under, twice))

skipped : (b : ℕ) (bytes : List ℕ) → (b == 0) ≡ true → be_value bytes ≡ be_value (b ∷ bytes)
skipped b bytes z =
    let zero_byte : b ≡ 0 = ground arith in
    omega (arith, be_value-cons b bytes, ap (λ (n : ℕ). n * 256 ^ length bytes) zero_byte)

-- The length in bits of the bytes of a number that is not 0: the number lies between the power of two
-- for this length and half of it.
pub bit_len_lem :
    (bytes : List ℕ)
    → AreBytes bytes
    → 0 < be_value bytes
    → (be_value bytes < 2 ^ bit_len bytes) × (2 ^ bit_len bytes ≤ 2 * be_value bytes)
unfolding bit_len
bit_len_lem [] h positive = absurd (empty_value positive)
bit_len_lem (b ∷ bytes) h positive = elim (Bool-cases (b == 0)) [
  | inl z ↦
      rw (bit_len, z)
        (subst (λ (v : ℕ). (v < 2 ^ bit_len bytes) × (2 ^ bit_len bytes ≤ 2 * v))
          (skipped b bytes z)
          (bit_len_lem bytes h.1 (subst (λ (v : ℕ). 0 < v) (sym (skipped b bytes z)) positive)))
  | inr z ↦
      rw (bit_len, z)
        (subst
          (λ (v : ℕ).
            (v < 2 ^ (length bytes * 8 + bits b)) × (2 ^ (length bytes * 8 + bits b) ≤ 2 * v))
          (sym (be_value-cons b bytes))
          (first_byte b (be_value bytes) (length bytes) (256 ^ length bytes) (ground arith) h.0
            (be_value_bound bytes h.1) refl))
]
