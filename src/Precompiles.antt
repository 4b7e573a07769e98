-- ===== src/Precompiles.antt =====
-- src/precompiles.rs: the contracts at the addresses 1 to 10 and 256, and their prices.
pub mod Interface
pub mod Modexp
pub mod Blake
pub mod Curves
pub mod Hashes
pub mod Faults
pub mod Native
use solenoid.Base.{Bool, ℕ, ◌+◌, ◌*◌, ◌/◌, ◌%◌, List, length, ◌==◌, if◌then◌else◌}
use solenoid.Base.Int.{ℤ, pos}
use solenoid.Base.I64.{as_i64, div_ceil}
use solenoid.Primitives.{Primitives}
use solenoid.Outcome.{Outcome, err, precompile_failed}
use solenoid.Types.{Address}
use solenoid.Precompiles.Interface.{Crates}
use solenoid.Precompiles.Modexp.{modexp, modexp_gas_cost}
use solenoid.Precompiles.Blake.{blake2f, blake2f_gas_cost}
use solenoid.Precompiles.Curves.{bn128_add, bn128_mul, bn128_pairing, kzg_point_evaluation}
use solenoid.Precompiles.Hashes.{ecrecover, sha256, ripemd160, identity, p256verify}

-- The last byte of the address.
abbrev last_byte : Address → ℕ
last_byte a = a % 256

-- Whether the address is 0x100.
abbrev is_p256 : Address → Bool
is_p256 a = a == 0x100

module _ ⦃prim : Primitives⦄ ⦃crates : Crates⦄ where
  unfoldable pub execute : Address → List ℕ → Outcome (List ℕ)
  execute a input =
      if is_p256 a
      then p256verify input
      else if last_byte a == 1
      then ecrecover input
      else if last_byte a == 2
      then sha256 input
      else if last_byte a == 3
      then ripemd160 input
      else if last_byte a == 4
      then identity input
      else if last_byte a == 5
      then modexp input
      else if last_byte a == 6
      then bn128_add input
      else if last_byte a == 7
      then bn128_mul input
      else if last_byte a == 8
      then bn128_pairing input
      else if last_byte a == 9
      then blake2f input
      else if last_byte a == 10
      then kzg_point_evaluation input
      else err precompile_failed

-- The price, as the `u64` that the match computes.
abbrev price : Address → List ℕ → ℕ
price a input =
    if last_byte a == 1
    then 3000
    else if last_byte a == 2
    then 60 + 12 * div_ceil (length input) 32
    else if last_byte a == 3
    then 600 + 120 * div_ceil (length input) 32
    else if last_byte a == 4
    then 15 + 3 * div_ceil (length input) 32
    else if last_byte a == 5
    then modexp_gas_cost input
    else if last_byte a == 6
    then 150
    else if last_byte a == 7
    then 6000
    else if last_byte a == 8
    then 45000 + 34000 * (length input / 192)
    else if last_byte a == 9
    then blake2f_gas_cost input
    else if last_byte a == 10
    then 50000
    else 0

unfoldable pub gas_cost : Address → List ℕ → ℤ
gas_cost a input = if is_p256 a then pos 6900 else as_i64 (price a input)
