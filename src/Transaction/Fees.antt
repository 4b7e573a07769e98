-- ===== src/Transaction/Fees.antt =====
-- The costs and the fees of a transaction, in `execute` of src/executor.rs.
use solenoid.Base.{
  ℕ, ◌+◌, ◌-◌, ◌*◌, false, not, Option, none, some, List, [], ◌∷◌, min, length, ltb, ◌==◌, ◌&&◌,
  if◌then◌else◌,
}
use solenoid.Base.Int.{ℤ, pos, negsuc, max_ℤ}
use solenoid.Base.I64.{as_i64, add_i64, sub_i64, mul_i64, div_ceil}
use solenoid.Primitives.{Primitives}
use solenoid.Outcome.{Done}
use solenoid.Word.{Word, is_zero}
use solenoid.Gas
use solenoid.Types.{Address, Call, Header, AccountTouch, is_zero_address}
use solenoid.Event.{EventData, AccountEvent, event}
use solenoid.Ext.{TxContext, balance, access_list_cost}
use solenoid.Ext.Slot.{change_account}
use solenoid.Machine.{Machine, Action, ◌>>=◌, ◌>>◌, pure, gets, unwrap, on_ext, touch, trace}
use solenoid.Instr.Block.{blob_gas_price}

abbrev pub call_cost : ℤ
call_cost = pos 21000

unfoldable pub nonzero_count : List ℕ → ℕ
nonzero_count [] = 0
nonzero_count (b ∷ bytes) = if b == 0 then nonzero_count bytes else nonzero_count bytes + 1

unfoldable pub zero_count : List ℕ → ℕ
zero_count [] = 0
zero_count (b ∷ bytes) = if b == 0 then zero_count bytes + 1 else zero_count bytes

-- 16 for each byte of the call data that is not zero, and 4 for each that is.
unfoldable pub data_cost : List ℕ → ℤ
unfolding nonzero_count
data_cost input = as_i64 (nonzero_count input * 16 + (length input - nonzero_count input) * 4)

unfoldable pub gas_floor : List ℕ → ℤ
unfolding zero_count
gas_floor input =
    let zeros = as_i64 (zero_count input) in
    let nonzeros = sub_i64 (as_i64 (length input)) zeros in
    add_i64 call_cost (mul_i64 (pos 10) (add_i64 zeros (mul_i64 nonzeros (pos 4))))

-- The costs beside the gas of the first frame. A transaction without a target creates a contract.
unfoldable pub gas_costs : Call → ℕ → ℤ → ℤ
gas_costs call ret_len list_cost =
    let base = add_i64 call_cost (data_cost call.input) in
    if not (is_zero_address call.to)
    then add_i64 base list_cost
    else add_i64
        (add_i64
          (add_i64 (add_i64 base (pos 32000))
            (mul_i64 (pos 2) (as_i64 (div_ceil (length call.input) 32))))
          (mul_i64 (pos 200) (as_i64 ret_len)))
        list_cost

unfoldable pub gas_final : Call → ℕ → Machine → ℤ
unfolding gas_costs gas_floor
gas_final call ret_len s =
    max_ℤ
      (Gas.finalized s.evm.gas (gas_costs call ret_len (access_list_cost s.ext.tx_ctx))
        s.evm.reverted)
      (gas_floor call.input)

-- `Word::from` of an `i64`, which panics when it is negative.
abbrev pub word_of_i64 : ℤ → Option Word
word_of_i64 (pos n) = some n
word_of_i64 (negsuc n) = none

module _ ⦃prim : Primitives⦄ where
  unfoldable pub effective_gas_price : TxContext → Word → Action Word
  unfolding unwrap
  effective_gas_price tx base_fee =
      if is_zero tx.gas_max_priority_fee then pure tx.gas_price else (do
        sum ← unwrap (prim.u256_add base_fee tx.gas_max_priority_fee)
        pure (min tx.gas_max_fee sum))

  -- The share of the coinbase in the price of a unit of gas.
  unfoldable pub coinbase_gas_price : TxContext → Word → Action Word
  unfolding effective_gas_price
  coinbase_gas_price tx base_fee = do
    price ← effective_gas_price tx base_fee
    pure (prim.u256_saturating_sub price base_fee)

  -- What was paid in advance, less the fee, goes back to the sender.
  unfoldable pub refund_sender : Address → Word → Word → Action Done
  refund_sender sender refund funds = do
    (if is_zero refund then pure tt else (do
      held ← on_ext (balance sender)
      sum ← unwrap (prim.u256_add held refund)
      on_ext (change_account sender (λ account. record account { value = sum }))))
    after ← on_ext (balance sender)
    touch (AccountTouch.fee_pay sender funds after)

  unfoldable pub pay_coinbase : Address → Word → Word → TxContext → Action Done
  unfolding coinbase_gas_price
  pay_coinbase miner gas base_fee tx = do
    price ← coinbase_gas_price tx base_fee
    fee ← unwrap (prim.u256_mul gas price)
    held ← on_ext (balance miner)
    (if is_zero fee then touch (AccountTouch.fee_pay miner held held) else (do
      sum ← unwrap (prim.u256_add held fee)
      on_ext (change_account miner (λ account. record account { value = sum }))
      trace (event (EventData.account (AccountEvent.set_value miner held sum)) 1 false)
      touch (AccountTouch.fee_pay miner held sum)))

  -- The blob fee is computed, which may panic, and not charged.
  unfoldable pub blob_fee : Header → TxContext → Action Done
  unfolding blob_gas_price
  blob_fee header tx = do
    price ← unwrap (blob_gas_price header)
    _ ← unwrap (prim.u256_mul tx.blob_gas_used (min price tx.blob_max_fee))
    pure tt

  -- The end of a transaction: `payment` was paid in advance by a sender who had `funds`.
  unfoldable pub settle_fees : Call → ℕ → Word → Word → Action Done
  unfolding refund_sender pay_coinbase blob_fee
  settle_fees call ret_len payment funds = do
    tx ← gets (λ s. s.ext.tx_ctx)
    header ← gets (λ s. s.exec.header)
    final ← gets (gas_final call ret_len)
    price ← effective_gas_price tx header.base_fee
    gas ← unwrap (word_of_i64 final)
    fee ← unwrap (prim.u256_mul gas price)
    refund ← unwrap (prim.u256_sub payment fee)
    refund_sender call.sender refund funds
    (if is_zero_address header.miner
        then pure tt
        else pay_coinbase header.miner gas header.base_fee tx)
    (if ltb 0 tx.blob_gas_used && not (is_zero_address header.miner)
        then blob_fee header tx
        else pure tt)
    trace (event (EventData.fee gas tx.gas_price fee) 1 false)
