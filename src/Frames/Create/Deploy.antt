-- ===== src/Frames/Create/Deploy.antt =====
-- The end of `create` of src/executor.rs: the code that the frame returned becomes that of the new
-- account, or the frame is undone.
use solenoid.Base.{false, length, if◌then◌else◌}
use solenoid.Base.Int.{ℤ, pos, ltb_ℤ}
use solenoid.Base.I64.{as_i64, add_i64, mul_i64}
use solenoid.Primitives.{Primitives}
use solenoid.Outcome.{Done}
use solenoid.Word.{Word, zero_word, one_word, from_bytes}
use solenoid.Types.{Address, AccountTouch, word_of_address}
use solenoid.Event.{EventData, AccountEvent, event}
use solenoid.Ext
use solenoid.Ext.Slot.{change_account}
use solenoid.Evm.{Evm}
use solenoid.Evm.Revert.{revert}
use solenoid.Machine.{Action, ◌>>=◌, ◌>>◌, on_ext, modify_evm, touch, trace, push}
use solenoid.Instr.Frame.{Frame, this_address}
use solenoid.Frames.Inner.{Inner, extend_touches, surviving}
use solenoid.Frames.Transfer.{create_transfer}
use solenoid.Frames.Call.Contract.{take_refund}

-- What is known of a creation once its frame has run.
pub record Creation : Type 0 where
  pub created : Address
  pub value : Word
  pub base : ℤ
  pub gas : ℤ
  pub inner : Inner

-- 200 for each byte of the code, unless the frame reverted.
unfoldable pub deployed_code_cost : Inner → ℤ
deployed_code_cost inner =
    if inner.evm.reverted then pos 0 else mul_i64 (pos 200) (as_i64 (length inner.ret))

abbrev pub use_gas : ℤ → Evm → Evm
use_gas cost evm = record evm { gas = record evm.gas { used = add_i64 evm.gas.used cost } }

unfoldable pub undo_creation : Inner → Action Done
unfolding modify_evm extend_touches
undo_creation inner = do
  push zero_word
  on_ext (revert inner.evm)
  extend_touches (surviving inner.evm.touches)

module _ ⦃prim : Primitives⦄ where
  -- The account gets its code, the nonce 1 and the value.
  unfoldable pub place_code : Frame → Creation → Action Done
  place_code f c = do
    let code = c.inner.ret
    let hash = from_bytes (prim.keccak code)
    _ ← on_ext (Ext.code c.created)
    on_ext (change_account c.created (λ account. record account { code = (code, hash) }))
    on_ext (change_account c.created (λ account. record account { nonce = one_word }))
    create_transfer f.ctx.call_type f.ctx.depth (this_address f) c.created c.value
    touch (AccountTouch.create c.created c.value one_word code hash)
    trace (
        event
          (EventData.account
            (AccountEvent.create c.created (this_address f) one_word c.value hash code))
          f.ctx.depth false)
    modify_evm (take_refund c.inner.evm.gas.refunded)
    extend_touches c.inner.evm.touches
    push (word_of_address c.created)

  unfoldable pub deploy : Frame → Creation → Action Done
  unfolding undo_creation place_code
  deploy f c =
      let used = c.inner.evm.gas.used in
      let cost = deployed_code_cost c.inner in
      if ltb_ℤ c.gas (add_i64 used cost)
      then (do modify_evm (use_gas (add_i64 c.base c.gas)); undo_creation c.inner)
      else (do
        modify_evm (use_gas (add_i64 (add_i64 c.base cost) used))
        (if c.inner.evm.reverted then undo_creation c.inner else place_code f c))
