-- ===== src/Primitives/Native.antt =====
-- The laws of the interface can be met: an implementation over the native numbers, which the
-- witnesses and the tests use. Its hash is a stand-in, the last 32 bytes of the input's number.
use solenoid.Base.{
  ℕ, ◌+◌, ◌-◌, ◌*◌, ◌/◌, ◌%◌, ◌^◌, ◌≤◌, ◌<◌, ◌≡◌, refl, Bool, Option, none, some, arith, bit_and,
  bit_or, bit_xor, ltb, leb, ◌==◌, if◌then◌else◌,
}
use mathlib.Core.Bool.{true, false, xor}
use solenoid.Base.Int.{ℤ, pos, negsuc, pos_part, neg_part}
use solenoid.Base.I64.{two64}
use solenoid.Primitives.Bytes.{be_value, be_bytes, be_value-be_bytes, length-be_bytes}
use solenoid.Primitives.Interface.{Primitives, two256, signed_256}

abbrev fits64 : ℕ → Option ℕ
fits64 w = if ltb w two64 then some w else none

pub fits64-some : (w : ℕ) → w < two64 → fits64 w ≡ some w
fits64-some w h = ground arith

pub fits64-none : (w : ℕ) → two64 ≤ w → fits64 w ≡ none
fits64-none w h = ground arith

-- Division of integers, rounded towards zero, and its remainder.
abbrev signed : Bool → ℕ → ℤ
signed false n = pos n
signed true n = if n == 0 then pos 0 else negsuc (n - 1)

abbrev magnitude : ℤ → ℕ
magnitude z = pos_part z + neg_part z

abbrev is_neg : ℤ → Bool
is_neg z = ltb 0 (neg_part z)

abbrev quotient : ℤ → ℤ → Option ℤ
quotient a b =
    if magnitude b == 0
    then none
    else some (signed (xor (is_neg a) (is_neg b)) (magnitude a / magnitude b))

abbrev remainder : ℤ → ℤ → Option ℤ
remainder a b =
    if magnitude b == 0 then none else some (signed (is_neg a) (magnitude a % magnitude b))

abbrev shift_right : ℤ → ℕ → Option ℤ
shift_right (pos n) k = if ltb k 256 then some (pos (n / 2 ^ k)) else none
shift_right (negsuc n) k = if ltb k 256 then some (negsuc (n / 2 ^ k)) else none

abbrev pattern_256 : ℤ → ℕ
pattern_256 (pos n) = n % two256
pattern_256 (negsuc n) = two256 - 1 - n % two256

pub signed-be_bytes : (w : ℕ) → w < two256 → signed_256 (be_value (be_bytes 32 w)) ≡ signed_256 w
signed-be_bytes w h = rw (be_value-be_bytes 32 w h)

instance abbrev pub native : Primitives
native = record {
  u256_as_u64 = fits64;
  u256_as_u64_fits = fits64-some;
  u256_as_u64_panics = fits64-none;
  u256_as_usize = fits64;
  u256_as_usize_fits = fits64-some;
  u256_as_usize_panics = fits64-none;
  u256_overflowing_add = λ a b. ((a + b) % two256, leb two256 (a + b));
  u256_overflowing_add_law = λ a b. refl;
  u256_overflowing_mul = λ a b. ((a * b) % two256, leb two256 (a * b));
  u256_overflowing_mul_law = λ a b. refl;
  u256_overflowing_sub = λ a b. ((a + two256 - b) % two256, ltb a b);
  u256_overflowing_sub_law = λ a b p q. refl;
  u256_overflowing_pow = λ a b. ((a ^ b) % two256, leb two256 (a ^ b));
  u256_overflowing_pow_law = λ a b. refl;
  u256_saturating_sub = λ a b. a - b;
  u256_saturating_sub_law = λ a b. refl;
  u256_add = λ a b. if ltb (a + b) two256 then some (a + b) else none;
  u256_add_law = λ a b. refl;
  u256_sub = λ a b. if leb b a then some (a - b) else none;
  u256_sub_law = λ a b. refl;
  u256_mul = λ a b. if ltb (a * b) two256 then some (a * b) else none;
  u256_mul_law = λ a b. refl;
  u256_div = λ a b. if b == 0 then none else some (a / b);
  u256_div_law = λ a b. refl;
  u256_rem = λ a b. if b == 0 then none else some (a % b);
  u256_rem_law = λ a b. refl;
  u256_bit = λ w i. if ltb i 256 then some ((w / 2 ^ i) % 2 == 1) else none;
  u256_bit_law = λ w i. refl;
  u256_and = bit_and;
  u256_and_law = λ a b. refl;
  u256_or = bit_or;
  u256_or_law = λ a b. refl;
  u256_xor = bit_xor;
  u256_xor_law = λ a b. refl;
  u256_not = λ a. two256 - 1 - a;
  u256_not_law = λ a. refl;
  u256_shl = λ w k. (w * 2 ^ k) % two256;
  u256_shl_law = λ w k. refl;
  u256_shr = λ w k. w / 2 ^ k;
  u256_shr_law = λ w k. refl;
  u256_to_big_endian = be_bytes 32;
  u256_to_big_endian_law = λ w. refl;
  u256_from_big_endian = be_value;
  u256_from_big_endian_law = λ bs _. refl;
  u256_full_mul = λ a b. a * b;
  u256_full_mul_law = λ a b. refl;
  u512_add = λ a b. if ltb (a + b) (2 ^ 512) then some (a + b) else none;
  u512_add_law = λ a b. refl;
  u512_rem = λ a b. if b == 0 then none else some (a % b);
  u512_rem_law = λ a b. refl;
  u512_to_big_endian = be_bytes 64;
  u512_to_big_endian_law = λ w. refl;
  i256_from_be_bytes = λ bs. signed_256 (be_value bs);
  i256_from_be_bytes_law = signed-be_bytes;
  i256_to_be_bytes = λ z. be_bytes 32 (pattern_256 z);
  i256_div = quotient;
  i256_rem = remainder;
  i256_shr = shift_right;
  keccak = λ bs. be_bytes 32 (be_value bs);
  keccak_size = λ bs. length-be_bytes 32 (be_value bs);
}
