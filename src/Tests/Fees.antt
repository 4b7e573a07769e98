-- ===== src/Tests/Fees.antt =====
-- Tests of the costs and the fees of a transaction.
use solenoid.Base.{◌+◌, ◌-◌, ◌*◌, refl, [], ◌∷◌, arith}
use solenoid.Base.Int.{pos, ◌≤ℤ◌, ◌-ℤ◌, ◌+ℤ◌, ◌*ℤ◌}
use solenoid.Base.I64.{as_i64, add_i64, sub_i64, mul_i64, div_i64, wrap_i64}
use solenoid.Primitives.Native.{native}
use solenoid.Maps.{insert}
use solenoid.Types.{Call}
use solenoid.Gas
use solenoid.Gas.{Gas}
use solenoid.Ext.{Account, access_list_cost}
use solenoid.Evm
use solenoid.Machine.{Machine}
use solenoid.Transaction.Fees.{
  nonzero_count, zero_count, data_cost, gas_floor, gas_costs, gas_final, settle_fees,
}
use solenoid.Transaction.Floor.{gas_final_floor}
use solenoid.Transaction.Balance.{IsSettled, settle_fees-IsSettled}
use solenoid.Tests.Data.{call, contract, world, with}

-- A call with the data 0, 7.
abbrev calling : Call
calling = record call { input = 0 ∷ 7 ∷ [] }

gas_final_floor_example : pos 21050 ≤ℤ gas_final calling 0 (with [] (pos 1000))
unfolding zero_count nonzero_count
gas_final_floor_example = gas_final_floor calling 0 (with [] (pos 1000)) (omega arith)

-- The sender 0xaa and the coinbase 0xbeef, with 5000 units of gas used by the first frame.
abbrev sender : Account
sender = record contract { value = 70; nonce = 5 }

abbrev coinbase : Account
coinbase = record contract { value = 3; nonce = 0 }

abbrev spent : Machine
spent = record (with [] (pos 9000)) {
  ext = record world { state = insert 0xbeef coinbase (insert 0xaa sender world.state) };
  evm = record (Evm.new (Gas.new (pos 9000))) {
    gas = record { limit = pos 9000; used = pos 5000; refunded = pos 0 };
  };
}

-- 26000 units of gas are used; the price is the base fee of 10 and the priority fee of 1.
settle_fees-IsSettled_example :
    IsSettled 0xaa 0xbeef
      (70 + (300000 - 26000 * 11))
      (3 + 26000 * (11 - 10))
      spent
      (settle_fees call 0 300000 300070 spent)
unfolding gas_final gas_costs gas_floor data_cost nonzero_count zero_count access_list_cost
    Gas.finalized add_i64 sub_i64 mul_i64 div_i64 wrap_i64 ◌-ℤ◌ ◌+ℤ◌ ◌*ℤ◌ as_i64
settle_fees-IsSettled_example =
    settle_fees-IsSettled call 0 26000 300000 300070 sender coinbase spent refl refl refl
      (omega arith) refl refl (omega arith) (omega arith) (omega arith) (omega arith) (omega arith)
