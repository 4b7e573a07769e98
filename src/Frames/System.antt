-- ===== src/Frames/System.antt =====
-- The arms of `execute_instruction` in src/executor.rs for the opcodes 0xf0, 0xf1, 0xf2, 0xf4, 0xf5
-- and 0xfa, which run another frame.
use solenoid.Base.{true, not, some, none, get_elem?, ◌==◌, if◌then◌else◌}
use solenoid.Base.Int.{ℤ, pos}
use solenoid.Primitives.{Primitives}
use solenoid.Outcome.{ok, err, panic, unfinished, static_call_violation, stack_underflow, Done}
use solenoid.Word.{is_zero}
use solenoid.Gas
use solenoid.Types.{CallType, is_static}
use solenoid.Machine.{Action, Handler, StepResult, ◌>>◌, raise, next}
use solenoid.Instr.Frame.{Frame}
use solenoid.Precompiles.Interface.{Crates}
use solenoid.Frames.Inner.{Runner}
use solenoid.Frames.Call.{call}
use solenoid.Frames.Create.{create}

abbrev pub retyped : CallType → Frame → Frame
retyped t f = record f { ctx = record f.ctx { call_type = t } }

-- An error of `call` halts the frame with all that remains as the cost.
unfoldable pub or_halt : Action ℤ → Handler
or_halt m s =
    let (r, s') = m s in
    elim r [
      | ok gas ↦ next gas s'
      | err _ ↦ (ok (StepResult.halt (Gas.remaining s'.evm.gas)), s')
      | panic ↦ (panic, s')
      | unfinished ↦ (unfinished, s')
    ]

-- In a static call, CALL with a value is an error; the value is the third word.
unfoldable pub check_value : Frame → Action Done
check_value f s =
    if not (is_static f.ctx.call_type) then (ok tt, s) else elim (get_elem? s.evm.stack 2) [
      | none ↦ raise stack_underflow s
      | some value ↦ if is_zero value then (ok tt, s) else raise (static_call_violation 0xf1) s
    ]

module _ ⦃prim : Primitives⦄ ⦃crates : Crates⦄ (run : Runner) (f : Frame) where
  -- CREATE takes the type of the frame it stands in.
  unfoldable pub create_op : Handler
  create_op =
      if is_static f.ctx.call_type
      then raise (static_call_violation 0xf0)
      else (do create run f; next (pos 0))

  unfoldable pub call_op : Handler
  unfolding check_value or_halt
  call_op = do check_value f; or_halt (call run (retyped CallType.call f))

  unfoldable pub callcode : Handler
  unfolding or_halt
  callcode = or_halt (call run (retyped CallType.callcode f))

  unfoldable pub delegatecall : Handler
  unfolding or_halt
  delegatecall = or_halt (call run (retyped CallType.delegate f))

  unfoldable pub create2_op : Handler
  create2_op =
      if is_static f.ctx.call_type
      then raise (static_call_violation 0xf5)
      else (do create run (retyped CallType.create2 f); next (pos 0))

  unfoldable pub staticcall : Handler
  unfolding or_halt
  staticcall = or_halt (
      call run
        (record f { ctx = record f.ctx { call_type = CallType.static; is_static_call = true } }))

  unfoldable pub system_call : Handler
  unfolding create_op call_op callcode delegatecall create2_op staticcall
  system_call =
      let code = f.instruction.opcode.code in
      if code == 0xf0
      then create_op
      else if code == 0xf1
      then call_op
      else if code == 0xf2
      then callcode
      else if code == 0xf4
      then delegatecall
      else if code == 0xf5
      then create2_op
      else staticcall
