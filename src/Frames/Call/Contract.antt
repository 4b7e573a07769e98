-- ===== src/Frames/Call/Contract.antt =====
-- The second half of `call` of src/executor.rs: the frame of the called contract, and what is left
-- of it in the frame of the caller.
use solenoid.Base.{ℕ, Bool, true, false, List, min, length, take, ltb, ◌||◌, if◌then◌else◌}
use solenoid.Base.Int.{ℤ, pos}
use solenoid.Base.I64.{as_u64, add_i64, sub_i64, add_usize}
use solenoid.Primitives.{Primitives}
use solenoid.Outcome.{Done}
use solenoid.Word.{Word, zero_word, one_word}
use solenoid.Types.{Call, CallType}
use solenoid.Event.{EventData, AccountEvent, event}
use solenoid.Decoder.{decode}
use solenoid.Evm.{Evm}
use solenoid.Evm.Revert.{revert}
use solenoid.Machine.{Action, ◌>>=◌, ◌>>◌, pure, on_ext, modify_evm, trace, push, set_ret}
use solenoid.Instr.Frame.{Frame, this_address, write_memory}
use solenoid.Frames.Report.{report_cost}
use solenoid.Frames.Inner.{Runner, Inner, run_inner, join_trace, extend_touches, surviving}
use solenoid.Frames.Transfer.{is_delegate, call_transfer}
use solenoid.Frames.Call.Arguments.{CallArgs}

-- What is known of a call before its frame runs.
pub record Called : Type 0 where
  pub args : CallArgs
  pub input : List ℕ
  pub code : List ℕ
  pub hash : Word
  pub gas : ℤ
  pub stipend : ℤ
  pub traced : ℤ

abbrev is_callcode : CallType → Bool
is_callcode CallType.callcode = true
is_callcode _ = false

-- DELEGATECALL and CALLCODE run the code on the caller's account, with the sender of its own call.
unfoldable pub inner_call : Frame → Called → Call
inner_call f c =
    let borrows = is_delegate f.ctx.call_type || is_callcode f.ctx.call_type in
    record {
      input = c.input;
      value = c.args.value;
      sender = if borrows then f.call.sender else this_address f;
      to = if borrows then this_address f else c.args.address;
      gas = as_u64 c.gas;
    }

-- The return data that fits the range is copied.
unfoldable pub copy_back : CallArgs → List ℕ → Action Done
copy_back args ret =
    let copy_len = min (length ret) args.ret_size in
    if ltb 0 copy_len
    then write_memory args.ret_offset (add_usize args.ret_offset copy_len) (take copy_len ret)
    else pure tt

-- The caller pays for what the frame has used beyond its stipend.
abbrev pub pay_inner : ℤ → ℤ → Evm → Evm
pay_inner used stipend evm = record evm {
  gas = record evm.gas { used = sub_i64 (add_i64 evm.gas.used used) stipend };
}

-- The refunds of the frame are the caller's, and are noted as reported.
abbrev pub take_refund : ℤ → Evm → Evm
take_refund refund evm =
    let sum = add_i64 evm.gas.refunded refund in
    record evm { gas = record evm.gas { refunded = sum }; refund = sum }

-- A frame that reverted is undone; of its touches the ones that survive are kept.
unfoldable pub settle_call : Inner → Action Done
unfolding modify_evm extend_touches
settle_call inner =
    if inner.evm.reverted
    then (do
      modify_evm (λ evm. record evm { refund = evm.gas.refunded })
      set_ret inner.ret
      push zero_word
      on_ext (revert inner.evm)
      extend_touches (surviving inner.evm.touches))
    else (do
      modify_evm (take_refund inner.evm.gas.refunded)
      extend_touches inner.evm.touches
      set_ret inner.ret
      push one_word)

module _ ⦃prim : Primitives⦄ where
  unfoldable pub call_contract : Runner → Frame → Called → Action Done
  unfolding settle_call
  call_contract run f c = do
    call_transfer f.ctx.call_type f.ctx.depth (this_address f) c.args.address c.args.value
    let code = decode c.code
    trace (
        event (EventData.account (AccountEvent.get_code c.args.address c.hash code.bytecode))
          f.ctx.depth false)
    inner ← run_inner run code (inner_call f c) f.ctx c.gas
    report_cost f c.traced (pos 0)
    join_trace inner
    copy_back c.args inner.ret
    modify_evm (pay_inner inner.evm.gas.used c.stipend)
    settle_call inner
