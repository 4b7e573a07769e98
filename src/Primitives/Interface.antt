-- ===== src/Primitives/Interface.antt =====
-- The operations of the crates primitive-types, i256 and tiny-keccak that the program calls.
use solenoid.Base.{
  ℕ, ◌+◌, ◌-◌, ◌*◌, ◌/◌, ◌%◌, ◌^◌, ◌≤◌, ◌<◌, ◌≡◌, Bool, Option, none, some, List, length, bit_and,
  bit_or, bit_xor, ltb, leb, ◌==◌, if◌then◌else◌,
}
use solenoid.Base.Int.{ℤ, pos, negsuc}
use solenoid.Base.I64.{two64}
use solenoid.Primitives.Bytes.{be_value, be_bytes}

abbrev pub two256 : ℕ
two256 = 2 ^ 256

-- The integer of a 256-bit two's complement pattern.
abbrev pub signed_256 : ℕ → ℤ
signed_256 w = if ltb w (2 ^ 255) then pos w else negsuc (two256 - 1 - w)

pub record Primitives : Type 0 where
  -- U256: conversions, which panic when the value does not fit
  pub u256_as_u64 : ℕ → Option ℕ
  pub u256_as_u64_fits : (w : ℕ) → w < two64 → u256_as_u64 w ≡ some w
  pub u256_as_u64_panics : (w : ℕ) → two64 ≤ w → u256_as_u64 w ≡ none
  pub u256_as_usize : ℕ → Option ℕ
  pub u256_as_usize_fits : (w : ℕ) → w < two64 → u256_as_usize w ≡ some w
  pub u256_as_usize_panics : (w : ℕ) → two64 ≤ w → u256_as_usize w ≡ none
  -- U256: arithmetic with an overflow flag
  pub u256_overflowing_add : ℕ → ℕ → ℕ × Bool
  pub u256_overflowing_add_law :
      (a b : ℕ) → u256_overflowing_add a b ≡ ((a + b) % two256, leb two256 (a + b))
  pub u256_overflowing_mul : ℕ → ℕ → ℕ × Bool
  pub u256_overflowing_mul_law :
      (a b : ℕ) → u256_overflowing_mul a b ≡ ((a * b) % two256, leb two256 (a * b))
  pub u256_overflowing_sub : ℕ → ℕ → ℕ × Bool
  pub u256_overflowing_sub_law :
      (a b : ℕ)
      → a < two256
      → b < two256
      → u256_overflowing_sub a b ≡ ((a + two256 - b) % two256, ltb a b)
  pub u256_overflowing_pow : ℕ → ℕ → ℕ × Bool
  pub u256_overflowing_pow_law : (a b : ℕ) → (u256_overflowing_pow a b).0 ≡ (a ^ b) % two256
  pub u256_saturating_sub : ℕ → ℕ → ℕ
  pub u256_saturating_sub_law : (a b : ℕ) → u256_saturating_sub a b ≡ a - b
  -- U256: `+`, `-` and `*` panic on overflow, `/` and `%` on a zero divisor
  pub u256_add : ℕ → ℕ → Option ℕ
  pub u256_add_law : (a b : ℕ) → u256_add a b ≡ (if ltb (a + b) two256 then some (a + b) else none)
  pub u256_sub : ℕ → ℕ → Option ℕ
  pub u256_sub_law : (a b : ℕ) → u256_sub a b ≡ (if leb b a then some (a - b) else none)
  pub u256_mul : ℕ → ℕ → Option ℕ
  pub u256_mul_law : (a b : ℕ) → u256_mul a b ≡ (if ltb (a * b) two256 then some (a * b) else none)
  pub u256_div : ℕ → ℕ → Option ℕ
  pub u256_div_law : (a b : ℕ) → u256_div a b ≡ (if b == 0 then none else some (a / b))
  pub u256_rem : ℕ → ℕ → Option ℕ
  pub u256_rem_law : (a b : ℕ) → u256_rem a b ≡ (if b == 0 then none else some (a % b))
  -- U256: bits
  pub u256_bit : ℕ → ℕ → Option Bool
  pub u256_bit_law :
      (w i : ℕ) → u256_bit w i ≡ (if ltb i 256 then some ((w / 2 ^ i) % 2 == 1) else none)
  pub u256_and : ℕ → ℕ → ℕ
  pub u256_and_law : (a b : ℕ) → u256_and a b ≡ bit_and a b
  pub u256_or : ℕ → ℕ → ℕ
  pub u256_or_law : (a b : ℕ) → u256_or a b ≡ bit_or a b
  pub u256_xor : ℕ → ℕ → ℕ
  pub u256_xor_law : (a b : ℕ) → u256_xor a b ≡ bit_xor a b
  pub u256_not : ℕ → ℕ
  pub u256_not_law : (a : ℕ) → u256_not a ≡ two256 - 1 - a
  pub u256_shl : ℕ → ℕ → ℕ
  pub u256_shl_law : (w k : ℕ) → u256_shl w k ≡ (w * 2 ^ k) % two256
  pub u256_shr : ℕ → ℕ → ℕ
  pub u256_shr_law : (w k : ℕ) → u256_shr w k ≡ w / 2 ^ k
  -- U256: big-endian bytes; `from_big_endian` takes at most 32 of them
  pub u256_to_big_endian : ℕ → List ℕ
  pub u256_to_big_endian_law : (w : ℕ) → u256_to_big_endian w ≡ be_bytes 32 w
  pub u256_from_big_endian : List ℕ → ℕ
  pub u256_from_big_endian_law :
      (bs : List ℕ) → length bs ≤ 32 → u256_from_big_endian bs ≡ be_value bs
  -- U512, which holds the full product of two U256
  pub u256_full_mul : ℕ → ℕ → ℕ
  pub u256_full_mul_law : (a b : ℕ) → u256_full_mul a b ≡ a * b
  pub u512_add : ℕ → ℕ → Option ℕ
  pub u512_add_law :
      (a b : ℕ) → u512_add a b ≡ (if ltb (a + b) (2 ^ 512) then some (a + b) else none)
  pub u512_rem : ℕ → ℕ → Option ℕ
  pub u512_rem_law : (a b : ℕ) → u512_rem a b ≡ (if b == 0 then none else some (a % b))
  pub u512_to_big_endian : ℕ → List ℕ
  pub u512_to_big_endian_law : (w : ℕ) → u512_to_big_endian w ≡ be_bytes 64 w
  -- I256
  pub i256_from_be_bytes : List ℕ → ℤ
  pub i256_from_be_bytes_law :
      (w : ℕ) → w < two256 → i256_from_be_bytes (be_bytes 32 w) ≡ signed_256 w
  pub i256_to_be_bytes : ℤ → List ℕ
  pub i256_div : ℤ → ℤ → Option ℤ
  pub i256_rem : ℤ → ℤ → Option ℤ
  pub i256_shr : ℤ → ℕ → Option ℤ
  -- Keccak-256
  pub keccak : List ℕ → List ℕ
  pub keccak_size : (bs : List ℕ) → length (keccak bs) ≡ 32
