-- ===== src/Precompiles/Modexp.antt =====
-- src/precompiles.rs: MODEXP and its price.

pub mod Value
pub mod Bits
use solenoid.Base.{
  ℕ, ◌+◌, ◌-◌, ◌*◌, max, Bool, List, [], ◌∷◌, length, ltb, leb, ◌==◌, ◌&&◌, ◌||◌, if◌then◌else◌,
}
use solenoid.Base.I64.{two64, div_ceil}
use solenoid.Primitives.Bytes.{be_value}
use solenoid.Outcome.{Outcome, ok, err, precompile_failed}
use solenoid.Instr.Bits.{leading_zeros}
use solenoid.Precompiles.Interface.{Crates}
use solenoid.Precompiles.Hashes.{part, pad_left, zeros}

abbrev pub modexp_max_input_len : ℕ
modexp_max_input_len = 1024

-- `BigUint::from_bytes_be(bytes).try_into().unwrap_or(0)`, to 64 bits.
abbrev pub field_len : List ℕ → ℕ
field_len bytes = if ltb (be_value bytes) two64 then be_value bytes else 0

abbrev pub base_len : List ℕ → ℕ
base_len input = field_len (part 0 32 input)

abbrev pub exp_len : List ℕ → ℕ
exp_len input = field_len (part 32 64 input)

abbrev pub mod_len : List ℕ → ℕ
mod_len input = field_len (part 64 96 input)

abbrev pub is_oversized : List ℕ → Bool
is_oversized input =
    ltb modexp_max_input_len (base_len input)
    || ltb modexp_max_input_len (exp_len input)
    || ltb modexp_max_input_len (mod_len input)

-- The three numbers behind the lengths.
abbrev pub base_bytes : List ℕ → List ℕ
base_bytes input = part 96 (96 + base_len input) input

abbrev pub exp_bytes : List ℕ → List ℕ
exp_bytes input = part (96 + base_len input) (96 + base_len input + exp_len input) input

abbrev pub mod_bytes : List ℕ → List ℕ
mod_bytes input =
    part (96 + base_len input + exp_len input) (96 + base_len input + exp_len input + mod_len input)
      input

module _ ⦃crates : Crates⦄ where
  unfoldable pub modexp : List ℕ → Outcome (List ℕ)
  modexp input =
      if ltb (length input) 96
      then ok []
      else if is_oversized input
      then err precompile_failed
      else if ltb (length input) (base_len input + exp_len input + mod_len input + 96)
      then ok []
      else if be_value (mod_bytes input) == 0
      then ok (zeros (mod_len input))
      else ok (
          pad_left (mod_len input) (
            crates.to_bytes_be (
              crates.modpow (be_value (base_bytes input)) (be_value (exp_bytes input))
                (be_value (mod_bytes input)))))

-- The loop over the bytes of an exponent: its length in bits.
unfoldable pub bit_len : List ℕ → ℕ
unfolding leading_zeros
bit_len [] = 0
bit_len (b ∷ bytes) = if b == 0 then bit_len bytes else length bytes * 8 + (8 - leading_zeros b)

-- An exponent of zeros has the length 0 in bits, so that its own branch in the source, which gives
-- 0, gives what the other gives.
unfoldable pub iteration_count : List ℕ → ℕ
unfolding bit_len
iteration_count input =
    let at = 96 + base_len input in
    let size = exp_len input in
    if leb size 32 && leb (at + size) (length input)
    then bit_len (exp_bytes input) - 1
    else if ltb 32 size
    then if leb (at + 32) (length input)
      then 16 * (size - 32) + (bit_len (part at (at + 32) input) - 1)
      else 16 * (size - 32)
    else 1

unfoldable pub multiplication_complexity : List ℕ → ℕ
multiplication_complexity input =
    let words = div_ceil (max (base_len input) (mod_len input)) 8 in words * words

unfoldable pub modexp_gas_cost : List ℕ → ℕ
unfolding iteration_count multiplication_complexity
modexp_gas_cost input =
    if ltb (length input) 96
    then 500
    else if is_oversized input
    then two64 - 1
    else max (multiplication_complexity input * max (iteration_count input) 1) 500
