-- ===== src/Transaction/Floor.antt =====
-- The gas that a transaction of src/executor.rs pays for.
use solenoid.Base.{ℕ, ◌+◌, ◌*◌, ◌<◌, ◌^◌, ◌≡◌, refl, List, [], ◌∷◌, length, arith}
use solenoid.Base.Int.{pos, ◌≤ℤ◌, ◌-ℤ◌, ◌+ℤ◌, ◌*ℤ◌}
use solenoid.Base.I64.{add_i64, sub_i64, mul_i64, wrap_i64}
use solenoid.Types.{Call}
use solenoid.Machine.{Machine}
use solenoid.Transaction.Fees.{nonzero_count, zero_count, gas_floor, gas_final}

zero_count_nonzero : (input : List ℕ) → zero_count input + nonzero_count input ≡ length input
unfolding zero_count nonzero_count
zero_count_nonzero [] = refl
zero_count_nonzero (b ∷ bytes) = ground (arith, zero_count_nonzero bytes)

gas_floor_lem :
    (input : List ℕ)
    → length input < 2 ^ 48
    → gas_floor input ≡ pos (21000 + 10 * (zero_count input + 4 * nonzero_count input))
unfolding gas_floor sub_i64 add_i64 mul_i64 wrap_i64 ◌-ℤ◌ ◌+ℤ◌ ◌*ℤ◌
gas_floor_lem input h = ground (arith, zero_count_nonzero input)

-- The gas that `execute` has a transaction pay for is at least 21000, 10 for each zero byte of its
-- call data and 40 for each other byte. The call data is shorter than 2 ^ 48 bytes.
pub gas_final_floor :
    (call : Call) (ret_len : ℕ) (s : Machine)
    → length call.input < 2 ^ 48
    → pos (21000 + 10 * (zero_count call.input + 4 * nonzero_count call.input))
      ≤ℤ gas_final call ret_len s
unfolding gas_final
gas_final_floor call ret_len s h = ground (arith, gas_floor_lem call.input h)
