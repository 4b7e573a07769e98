-- ===== src/Frames/Call.antt =====
-- `call` of src/executor.rs: CALL, CALLCODE, DELEGATECALL and STATICCALL, up to the frame that is
-- called.
pub mod Arguments
pub mod Contract
use mathlib.Core.Option
use solenoid.Base.{
  ℕ, ◌+◌, ◌*◌, Bool, true, false, not, Option, none, some, List, [], min, length, take, slice, ltb,
  ◌&&◌, if◌then◌else◌,
}
use solenoid.Base.Int.{ℤ, pos, ltb_ℤ, min_ℤ}
use solenoid.Base.I64.{as_i64, add_i64, sub_i64, div_i64, add_usize}
use solenoid.Primitives.{Primitives}
use solenoid.Outcome.{Outcome, ok, err, panic, unfinished, Report, Done, out_of_gas}
use solenoid.Word.{Word, is_zero, zero_word, one_word}
use solenoid.Gas
use solenoid.Types.{Address}
use solenoid.Event.{event}
use solenoid.Ext.Slot
use solenoid.Evm
use solenoid.Machine.{
  Machine, Action, ◌>>=◌, ◌>>◌, pure, raise, gets, unwrap, on_evm, on_ext, modify_evm, trace, push,
  memory_expansion_cost, set_ret,
}
use solenoid.Instr.Frame.{Frame, this_address, read_memory, write_memory}
use solenoid.Instr.Env.{is_precompile}
use solenoid.Precompiles
use solenoid.Precompiles.Interface.{Crates}
use solenoid.Frames.Report.{op_event, report_cost}
use solenoid.Frames.Inner.{Runner}
use solenoid.Frames.Transfer.{moves_value}
use solenoid.Frames.Call.Arguments.{CallArgs, pop_args, expand_call, resolve_code}
use solenoid.Frames.Call.Contract.{Called, call_contract}

-- `evm.refund = evm.gas.refund`
unfoldable pub sync_refund : Action Done
unfolding modify_evm
sync_refund = modify_evm (λ evm. record evm { refund = evm.gas.refunded })

-- The base cost is not there: the report, and an error. The report holds the input, cut to the
-- memory.
unfoldable pub call_out_of_gas : Frame → CallArgs → Action ℤ
unfolding sync_refund
call_out_of_gas f args = do
  s ← gets (λ s. s)
  let left = Gas.remaining s.evm.gas
  let size = length s.evm.memory
  _ ← unwrap (
      slice (min args.args_offset size) (min (add_usize args.args_offset args.args_size) size)
        s.evm.memory)
  trace (event (op_event f left (add_i64 s.evm.gas.used left) (pos 0) (pos 0) s) f.ctx.depth false)
  sync_refund
  push zero_word
  raise out_of_gas

-- The gas that the "all but one 64th" rule forwards, of what remains.
unfoldable pub forwarded : ℤ → ℤ → ℤ
forwarded call_gas left = min_ℤ call_gas (sub_i64 left (div_i64 left 64))

module _ ⦃prim : Primitives⦄ ⦃crates : Crates⦄ where
  -- A precompiled contract that fails leaves the return data of the call before.
  unfoldable pub precompile_result : Outcome (List ℕ) → Action Word
  unfolding set_ret
  precompile_result (ok ret) = do set_ret ret; pure one_word
  precompile_result (err _) = pure zero_word
  precompile_result panic = λ s. (panic, s)
  precompile_result unfinished = λ s. (unfinished, s)

  -- The report holds the input, which must lie in the memory even when it is empty.
  unfoldable pub call_precompile : Frame → CallArgs → List ℕ → ℤ → Action Done
  unfolding precompile_result
  call_precompile f args input traced = do
    let cost = Precompiles.gas_cost args.address input
    result ← precompile_result (Precompiles.execute args.address input)
    _ ← read_memory args.args_offset (add_usize args.args_offset args.args_size)
    report_cost f traced (pos 0)
    ret ← gets (λ s. s.exec.ret)
    let copy_len = min (length ret) args.ret_size
    write_memory args.ret_offset (add_usize args.ret_offset copy_len) (take copy_len ret)
    push result
    on_evm (Evm.charge cost)

  unfoldable pub forward : Runner → Frame → CallArgs → List ℕ → Word → ℤ → Action ℤ
  forward run f args code hash base = do
    left ← gets (λ s. Gas.remaining s.evm.gas)
    let stipend : ℤ = if moves_value f.ctx.call_type args.value then pos 2300 else pos 0
    let gas = add_i64 (forwarded (as_i64 args.gas) (sub_i64 left base)) stipend
    let traced = sub_i64 (add_i64 base gas) stipend
    input ←
        (if ltb 0 args.args_size
          then read_memory args.args_offset (add_usize args.args_offset args.args_size)
          else pure [])
    (if is_precompile args.address
        then call_precompile f args input traced
        else call_contract run f (record {
          args = args;
          input = input;
          code = code;
          hash = hash;
          gas = gas;
          stipend = stipend;
          traced = traced;
        }))
    pure base

  -- It returns the gas to charge the caller.
  unfoldable pub call : Runner → Frame → Action ℤ
  unfolding forward
  call run f = do
    args ← pop_args f
    expand_call args
    expansion ← memory_expansion_cost
    is_empty ←
        (if is_precompile args.address then pure false else on_ext (Slot.is_empty args.address))
    let create_cost : ℤ = if not (is_zero args.value) && is_empty then pos 25000 else pos 0
    (code, hash, access) ← resolve_code args.address
    let cost = add_i64 (add_i64 access expansion) create_cost
    let base : ℤ = if moves_value f.ctx.call_type args.value then add_i64 cost (pos 9000) else cost
    left ← gets (λ s. Gas.remaining s.evm.gas)
    (if ltb_ℤ left base then call_out_of_gas f args else forward run f args code hash base)
