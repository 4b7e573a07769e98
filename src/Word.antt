-- ===== src/Word.antt =====
-- evm-common/src/word.rs: `Word`, a wrapper of `U256`. A word stands as its value, below 2 ^ 256.
pub mod Modulo
use solenoid.Base.{ℕ, ◌==◌, Bool, Option, List, drop, if◌then◌else◌, ◌-◌}
use solenoid.Base.Int.{ℤ}
use solenoid.Base.I64
use solenoid.Primitives.{Primitives, two256}
use mathlib.Core.Option

abbrev pub Word : Type 0
Word = ℕ

abbrev pub is_zero : Word → Bool
is_zero w = w == 0

abbrev pub zero_word : Word
zero_word = 0

abbrev pub one_word : Word
one_word = 1

abbrev pub max_word : Word
max_word = two256 - 1

-- A flag as the word that a comparison pushes.
abbrev pub word_of : Bool → Word
word_of b = if b then one_word else zero_word

module _ ⦃prim : Primitives⦄ where
  unfoldable pub mul_modulo : Word → Word → Word → Option Word
  mul_modulo a b m =
      Option.map (λ r. prim.u256_from_big_endian (drop 32 (prim.u512_to_big_endian r)))
        (prim.u512_rem (prim.u256_full_mul a b) m)

  -- The sum is taken in 512 bits, so that it cannot overflow.
  unfoldable pub add_modulo : Word → Word → Word → Option Word
  add_modulo a b m =
      Option.map (λ r. prim.u256_from_big_endian (drop 32 (prim.u512_to_big_endian r)))
        (Option.bind (prim.u512_add (prim.u256_full_mul a 1) (prim.u256_full_mul b 1))
          λ s. prim.u512_rem s (prim.u256_full_mul m 1))

  abbrev pub into_bytes : Word → List ℕ
  into_bytes = prim.u256_to_big_endian

  abbrev pub from_bytes : List ℕ → Word
  from_bytes = prim.u256_from_big_endian

  abbrev pub as_u64 : Word → Option ℕ
  as_u64 = prim.u256_as_u64

  unfoldable pub as_i64 : Word → Option ℤ
  as_i64 w = Option.map I64.as_i64 (prim.u256_as_u64 w)

  -- On a 64-bit target.
  abbrev pub as_usize : Word → Option ℕ
  as_usize = prim.u256_as_usize

  abbrev pub bit : Word → ℕ → Option Bool
  bit = prim.u256_bit

  abbrev pub pow : Word → Word → Word
  pow a b = (prim.u256_overflowing_pow a b).0
