-- ===== src/Transaction.antt =====
-- `execute` of src/executor.rs: a transaction, from the warm addresses and the prepaid gas to the
-- fees.
pub mod Fees
pub mod Floor
pub mod Settled
pub mod Balance
use solenoid.Base.{
  ℕ, ◌+◌, ◌-◌, ◌*◌, Bool, true, false, not, List, [], ◌∷◌, length, ltb, ◌==◌, ◌&&◌, ◌||◌,
  if◌then◌else◌,
}
use solenoid.Base.Int.{ℤ, pos}
use solenoid.Base.I64
use solenoid.Base.I64.{add_i64, sub_i64, mul_i64}
use solenoid.Primitives.{Primitives}
use solenoid.Outcome.{Outcome, ok, err, panic, unfinished, Done}
use solenoid.Word.{Word, is_zero, as_i64}
use solenoid.Gas
use solenoid.Types.{Address, Call, CallType, Context, AccountTouch, is_zero_address}
use solenoid.Event.{EventData, AccountEvent, event, join}
use solenoid.Address
use solenoid.Decoder.{Bytecode}
use solenoid.Ext.{code, balance, access_list_cost, apply_access_list}
use solenoid.Ext.Slot.{change_account}
use solenoid.Evm.{Evm}
use solenoid.Evm.Revert.{revert}
use solenoid.Machine.{
  Machine, Action, ◌>>=◌, ◌>>◌, pure, gets, unwrap, on_ext, modify_evm, modify_ext, touch, trace,
}
use solenoid.Frames.Inner.{Runner}
use solenoid.Frames.Warm.{warm_up}
use solenoid.Frames.Call.Arguments.{is_delegation, delegation_target}
use solenoid.Frames.Create.{next_nonce}
use solenoid.Transaction.Fees.{call_cost, data_cost, settle_fees}

module _ ⦃prim : Primitives⦄ where
  -- The sender, the target, what it delegates to, and the coinbase become warm.
  unfoldable pub prewarm : Call → Action Done
  unfolding warm_up
  prewarm call = do
    warm_up call.sender
    (if is_zero_address call.to then pure tt else (do
      warm_up call.to
      (own, hash) ← on_ext (code call.to)
      touch (AccountTouch.get_code call.to hash own)
      (if is_delegation own then warm_up (delegation_target own) else pure tt)))
    miner ← gets (λ s. s.exec.header.miner)
    (if is_zero_address miner then pure tt else warm_up miner)

  -- The gas is paid in advance: the payment, and the balance of the sender before.
  unfoldable pub prepay : Call → Action (Word × Word)
  prepay call = do
    price ← gets (λ s. s.ext.tx_ctx.gas_price)
    payment ← unwrap (prim.u256_mul call.gas price)
    funds ← on_ext (balance call.sender)
    (if is_zero payment
        then pure tt
        else on_ext (
            change_account call.sender
              (λ account. record account { value = prim.u256_saturating_sub funds payment })))
    pure (payment, funds)

  -- The gas of the first frame: what is left of the limit behind the costs of the transaction.
  unfoldable pub start_gas : Call → Action Done
  start_gas call = do
    limit ← unwrap (as_i64 call.gas)
    list_cost ← gets (λ s. access_list_cost s.ext.tx_ctx)
    modify_ext apply_access_list
    let gas = sub_i64 (sub_i64 (sub_i64 limit call_cost) list_cost) (data_cost call.input)
    modify_evm (λ evm. record evm { gas = Gas.new gas })

  -- The event of the receiver holds the balance of the sender.
  unfoldable pub move_call_value : Call → Word → Word → Action Done
  move_call_value call src dst = do
    held ← on_ext (balance call.sender)
    let updated = prim.u256_saturating_sub held call.value
    on_ext (change_account call.sender (λ account. record account { value = updated }))
    touch (AccountTouch.set_value call.sender src updated)
    trace (event (EventData.account (AccountEvent.set_value call.sender src updated)) 1 false)
    there ← on_ext (balance call.to)
    sum ← unwrap (prim.u256_add there call.value)
    on_ext (change_account call.to (λ account. record account { value = sum }))
    noted ← unwrap (prim.u256_add dst call.value)
    touch (AccountTouch.set_value call.to dst noted)
    reported ← unwrap (prim.u256_add src call.value)
    trace (event (EventData.account (AccountEvent.set_value call.to src reported)) 1 false)

  unfoldable pub transaction_transfer : Call → Action Done
  unfolding move_call_value
  transaction_transfer call = do
    src ← on_ext (balance call.sender)
    dst ← on_ext (balance call.to)
    (if not (is_zero call.value) && not (is_zero_address call.to)
        then move_call_value call src dst
        else pure tt)

abbrev is_transfer_only : Bytecode → Call → Bool
is_transfer_only code call =
    length code.bytecode == 0 && length call.input == 0 && not (is_zero_address call.to)

-- The frame of the transaction runs on the `Evm` of the transaction, with a fork of the tracer.
unfoldable pub run_first : Runner → Bytecode → Call → Context → Action (List ℕ)
run_first run code call ctx s =
    let (r, t) = run code call ctx (record s { exec = record s.exec { tracer = []; ret = [] } }) in
    let events = join s.exec.tracer t.exec.tracer t.evm.reverted in
    (r, record s { exec = record s.exec { tracer = events }; evm = t.evm; ext = t.ext })

-- A transaction that reverted is undone.
unfoldable pub undo_reverted : Action Done
undo_reverted s = if s.evm.reverted then on_ext (revert s.evm) s else (ok tt, s)

module _ ⦃prim : Primitives⦄ where
  unfoldable pub execute : Runner → Bytecode → Call → Action (List ℕ)
  unfolding prewarm prepay start_gas transaction_transfer
  execute run code call = do
    prewarm call
    (payment, funds) ← prepay call
    start_gas call
    transaction_transfer call
    n ← next_nonce 1 call.sender
    (if is_transfer_only code call
        then modify_evm (λ evm. record evm { stopped = true; reverted = false })
        else pure tt)
    let ctx : Context = record {
      created = Address.create call.sender n;
      origin = call.sender;
      depth = 1;
      call_type = CallType.call;
      is_static_call = false;
    }
    ret ← run_first run code call ctx
    undo_reverted
    settle_fees call (length ret) payment funds
    pure ret
