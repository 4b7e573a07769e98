-- ===== src/Builder/Apply/Creation.antt =====
-- The creation of a contract by `Runner::apply` of src/solenoid.rs.
use solenoid.Base.{ℕ, true, false, not, none, some, List, [], length, leb, ◌&&◌, if◌then◌else◌}
use solenoid.Base.Int.{ℤ, pos, ltb_ℤ}
use solenoid.Base.I64.{as_i64, add_i64, mul_i64, add_usize}
use solenoid.Primitives.{Primitives}
use solenoid.Outcome.{ok, panic, Done}
use solenoid.Word.{Word, is_zero, zero_word, one_word, as_u64, as_i64 as word_as_i64, from_bytes}
use solenoid.Gas
use solenoid.Types.{Address, Call, CallType, Context, AccountTouch, is_zero_address}
use solenoid.Decoder.{decode}
use solenoid.Ext.{Account, Access, balance, pull}
use solenoid.Ext.Slot.{change_account}
use solenoid.Evm
use solenoid.Evm.Revert.{revert}
use solenoid.Machine.{Action, ◌>>=◌, ◌>>◌, pure, gets, unwrap, on_ext, touch}
use solenoid.Frames.Inner.{Runner}
use solenoid.Transaction.Fees.{word_of_i64, coinbase_gas_price}

pub record GasResult : Type 0 where
  pub gas_max : ℤ
  pub gas_use : ℤ
  pub gas_fee : Word

-- A read through `account_mut`, which panics when the account is missing.
unfoldable pub held_account : Address → Access Account
held_account a ext = elim (ext.state a) [ none ↦ (panic, ext) | some account ↦ (ok account, ext) ]

module _ ⦃prim : Primitives⦄ where
  -- `account_mut(a).nonce += Word::one()`
  unfoldable pub raise_nonce : Address → Action Done
  unfolding held_account
  raise_nonce a = do
    account ← on_ext (held_account a)
    up ← unwrap (prim.u256_add account.nonce one_word)
    on_ext (change_account a (λ account. record account { nonce = up }))

  -- The same, with the touch of a creation.
  unfoldable pub note_nonce : Address → Action Done
  unfolding raise_nonce
  note_nonce a = do
    account ← on_ext (held_account a)
    raise_nonce a
    small ← unwrap (as_u64 account.nonce)
    touch (AccountTouch.set_nonce a small (add_usize small 1))

  -- The value goes to the new account before its code runs, if the sender has it.
  unfoldable pub fund_created : Call → Address → Action Done
  fund_created call created = if is_zero call.value then pure tt else (do
    sender_balance ← on_ext (balance call.sender)
    created_balance ← on_ext (balance created)
    (if leb call.value sender_balance
        then (do
          new_sender ← unwrap (prim.u256_sub sender_balance call.value)
          new_created ← unwrap (prim.u256_add created_balance call.value)
          on_ext (change_account call.sender (λ account. record account { value = new_sender }))
          on_ext (change_account created (λ account. record account { value = new_created }))
          touch (AccountTouch.set_value call.sender sender_balance new_sender)
          touch (AccountTouch.set_value created created_balance new_created))
        else pure tt))

-- What the creation costs, and the code that stays: none without the gas for its deployment.
unfoldable pub settle_creation : ℤ → ℤ → List ℕ → Action (ℤ × List ℕ)
settle_creation limit upfront ret s =
    let deployed_code_cost = mul_i64 (pos 200) (as_i64 (length ret)) in
    if not s.evm.reverted && ltb_ℤ (Gas.remaining s.evm.gas) deployed_code_cost
    then (
      ok (limit, []),
      record s { evm = (Evm.charge limit (record s.evm { reverted = true })).1 },
    )
    else (ok (Gas.finalized s.evm.gas (add_i64 upfront deployed_code_cost) s.evm.reverted, ret), s)

module _ ⦃prim : Primitives⦄ where
  unfoldable pub pay_priority_fee : ℤ → Action Done
  unfolding coinbase_gas_price
  pay_priority_fee final = do
    header ← gets (λ s. s.exec.header)
    tx ← gets (λ s. s.ext.tx_ctx)
    (if is_zero_address header.miner then pure tt else (do
      price ← coinbase_gas_price tx header.base_fee
      gas ← unwrap (word_of_i64 final)
      fee ← unwrap (prim.u256_mul gas price)
      (if is_zero fee then pure tt else (do
        held ← on_ext (balance header.miner)
        sum ← unwrap (prim.u256_add held fee)
        on_ext (change_account header.miner (λ account. record account { value = sum }))
        touch (AccountTouch.fee_pay header.miner held sum)))))

  unfoldable pub place_contract : Address → Address → List ℕ → Action Done
  unfolding note_nonce
  place_contract sender created ret = do
    on_ext (pull created)
    on_ext (pull sender)
    note_nonce sender
    let hash = from_bytes (prim.keccak ret)
    on_ext (change_account created (λ account. record account { code = (ret, hash) }))
    on_ext (change_account created (λ account. record account { nonce = one_word }))
    touch (AccountTouch.create created zero_word one_word ret hash)

  unfoldable pub undo_contract : Address → Action Done
  unfolding note_nonce
  undo_contract sender = do evm ← gets (λ s. s.evm); on_ext (revert evm); note_nonce sender

  -- The sender pays what it has, at most the fee.
  unfoldable pub charge_sender : Address → ℤ → Action Word
  charge_sender sender final = do
    price ← gets (λ s. s.ext.tx_ctx.gas_price)
    gas ← unwrap (word_of_i64 final)
    fee ← unwrap (prim.u256_mul gas price)
    held ← on_ext (balance sender)
    let left = prim.u256_saturating_sub held fee
    on_ext (change_account sender (λ account. record account { value = left }))
    touch (AccountTouch.fee_pay sender held left)
    pure fee

  -- What follows the run of the code of a creation.
  unfoldable pub end_creation : Call → ℤ → Address → List ℕ → Action (List ℕ × GasResult)
  unfolding settle_creation pay_priority_fee place_contract undo_contract charge_sender
  end_creation call upfront created ret = do
    limit ← unwrap (word_as_i64 call.gas)
    (final, kept) ← settle_creation limit upfront ret
    pay_priority_fee final
    reverted ← gets (λ s. s.evm.reverted)
    (if reverted then undo_contract call.sender else place_contract call.sender created kept)
    fee ← charge_sender call.sender final
    pure (kept, record { gas_max = limit; gas_use = final; gas_fee = fee })

  unfoldable pub create_contract :
      Runner → List ℕ → Call → ℤ → Address → Action (List ℕ × GasResult)
  unfolding fund_created end_creation
  create_contract run bytes call upfront created = do
    fund_created call created
    let ctx : Context = record {
      created = created;
      origin = 0;
      depth = 1;
      call_type = CallType.create;
      is_static_call = false;
    }
    ret ← run (decode bytes) call ctx
    end_creation call upfront created ret
