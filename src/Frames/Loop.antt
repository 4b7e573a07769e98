-- ===== src/Frames/Loop.antt =====
-- `execute_with_context` of src/executor.rs: the instructions of a frame, one after the other.
use text.Mathlib.Text.{◌==◌ as str_eq}
use solenoid.Base.{
  ℕ, zero, suc, Bool, true, false, not, Option, none, some, List, [], length, get_elem?, ltb, ◌==◌,
  ◌||◌, ◌&&◌, if◌then◌else◌,
}
use solenoid.Base.Int.{ℤ, pos, min_ℤ}
use solenoid.Base.I64.{sub_i64}
use solenoid.Primitives.{Primitives}
use solenoid.Outcome.{Outcome, ok, err, panic, unfinished, Done}
use solenoid.Gas
use solenoid.Types.{Call, Context, is_zero_address}
use solenoid.Event.{EventData, HaltReason, event}
use solenoid.Decoder.{Bytecode, Instruction, is_call}
use solenoid.Evm
use solenoid.Evm.{Evm, call_depth_limit}
use solenoid.Machine.{
  Machine, Action, Handler, StepResult, ◌>>=◌, ◌>>◌, pure, gets, modify_evm, trace,
}
use solenoid.Instr.Frame.{Frame}
use solenoid.Step.{execute_instruction}
use solenoid.Frames.Warm.{warm_up}
use solenoid.Frames.Report.{op_event, report_cost}

abbrev pub stop_reverted : Evm → Evm
stop_reverted evm = record evm { stopped = true; reverted = true }

-- `expect("must succeed")`: an error is a panic.
unfoldable pub expect : Outcome Done → Outcome Done
expect (err _) = panic
expect r = r

-- `evm.gas.sub(evm.gas.remaining()).expect(…)`, and the same by the method of the frame.
unfoldable pub sub_all : Action Done
unfolding expect
sub_all s =
    let (r, gas) = Gas.charge s.evm.gas (Gas.remaining s.evm.gas) in
    (expect r, record s { evm = record s.evm { gas = gas } })

unfoldable pub charge_all : Action Done
unfolding expect
charge_all s =
    let (r, evm) = Evm.charge (Gas.remaining s.evm.gas) s.evm in (expect r, record s { evm = evm })

-- `if evm.gas(cost).is_err()`
unfoldable pub is_too_much : ℤ → Action Bool
is_too_much cost s =
    let (r, evm) = Evm.charge cost s.evm in
    let s' : Machine = record s { evm = evm } in
    elim r [
      | ok _ ↦ (ok false, s')
      | err _ ↦ (ok true, s')
      | panic ↦ (panic, s')
      | unfinished ↦ (unfinished, s')
    ]

abbrev is_sstore : Frame → Bool
is_sstore f = str_eq f.instruction.opcode.name "SSTORE"

abbrev pub is_invalid : Frame → Bool
is_invalid f = f.instruction.opcode.code == 0xfe

-- The report of an instruction that did not fail. Calls and creations report themselves, and so
-- does an SSTORE that halts.
unfoldable pub report_step : Frame → ℤ → Bool → Action Done
unfolding modify_evm
report_step f cost halts = if is_call f.instruction || halts && is_sstore f then pure tt else (do
  s ← gets (λ s. s)
  modify_evm (λ evm. record evm { refund = evm.gas.refunded })
  report_cost f (min_ℤ cost (Gas.remaining s.evm.gas)) (sub_i64 s.evm.gas.refunded s.evm.refund))

-- The end of a frame by INVALID or by a halt.
unfoldable pub halt_frame : Frame → Action Bool
unfolding sub_all
halt_frame f = do
  sub_all
  modify_evm stop_reverted
  let reason = if is_invalid f then HaltReason.invalid_opcode else HaltReason.out_of_gas
  trace (event (EventData.halt reason) f.ctx.depth true)
  pure true

-- The cost is charged, and SELFDESTRUCT ends the frame. The flag says that the frame is over.
unfoldable pub charge_step : Frame → ℤ → Action Bool
unfolding is_too_much
charge_step f cost = do
  broke ← is_too_much cost
  (if broke
      then (do
        modify_evm stop_reverted
        trace (event (EventData.halt HaltReason.out_of_gas) f.ctx.depth true)
        pure true)
      else pure (f.instruction.opcode.code == 0xff))

unfoldable pub settle_step : Frame → StepResult → Action Bool
unfolding report_step halt_frame charge_step
settle_step f (StepResult.done cost) = do
  report_step f cost false
  (if is_invalid f then halt_frame f else charge_step f cost)
settle_step f (StepResult.halt cost) = do
  modify_evm stop_reverted
  report_step f cost true
  halt_frame f

-- The end of a frame by the error of an instruction.
unfoldable pub fail_step : Frame → Action Bool
unfolding charge_all
fail_step f = do
  modify_evm stop_reverted
  s ← gets (λ s. s)
  let gas = s.evm.gas
  trace (
      event (op_event f (pos 0) gas.used (Gas.remaining gas) (sub_i64 gas.refunded s.evm.refund) s)
        f.ctx.depth true)
  charge_all
  pure true

module _ ⦃prim : Primitives⦄ (system_call : Frame → Handler) where
  -- One round of the loop.
  unfoldable pub step : Frame → Action Bool
  unfolding settle_step fail_step
  step f s =
      let (r, s') = execute_instruction system_call f s in
      elim r [
        | ok result ↦ settle_step f result s'
        | err _ ↦ fail_step f s'
        | panic ↦ (panic, s')
        | unfinished ↦ (unfinished, s')
      ]

-- The instruction that the loop runs next.
abbrev pub current : Bytecode → Machine → Option Instruction
current code s = if s.evm.stopped then none else get_elem? code.instructions s.evm.pc

abbrev has_instructions : Bytecode → Bool
has_instructions code = ltb 0 (length code.instructions)

-- A frame that is over returns nothing.
abbrev pub unless_over : Action (List ℕ) → Bool → Action (List ℕ)
unless_over rest over = if over then pure [] else rest

-- The end of the loop: code that runs out reports a STOP.
unfoldable pub finish : Bytecode → Context → Action (List ℕ)
finish code ctx = do
  s ← gets (λ s. s)
  let gas = s.evm.gas
  (if not s.evm.stopped && has_instructions code
      then trace (
          event
            (EventData.op_code (record {
              pc = s.evm.pc;
              op = 0x00;
              argument = none;
              gas_cost = pos 0;
              gas_used = gas.used;
              gas_left = Gas.remaining gas;
              gas_back = pos 0;
              stack = s.evm.stack;
              memory = s.evm.memory;
            }))
            ctx.depth false)
      else pure tt)
  pure s.exec.ret

-- The start of a frame: its report, and the caller becomes warm.
unfoldable pub begin : Call → Context → Action Done
begin call ctx = do
  trace (
      event (EventData.call call.input call.value call.sender call.to call.gas ctx.call_type)
        ctx.depth false)
  (if is_zero_address call.sender then pure tt else warm_up call.sender)

module _ ⦃prim : Primitives⦄ (system_call : Frame → Handler) where
  -- The loop, on fuel: each round takes one.
  unfoldable pub steps : ℕ → Bytecode → Call → Context → Action (List ℕ)
  unfolding step finish
  steps zero code call ctx s = (unfinished, s)
  steps (suc fuel) code call ctx s =
      let rest = steps fuel code call ctx in
      elim (current code s) [
        | none ↦ finish code ctx s
        | some instruction ↦
            (step system_call
                  (record { code = code; call = call; ctx = ctx; instruction = instruction })
                >>= unless_over rest)
              s
      ]

  unfoldable pub execute_with_context : ℕ → Bytecode → Call → Context → Action (List ℕ)
  unfolding begin steps
  execute_with_context fuel code call ctx = do
    begin call ctx
    (if ltb call_depth_limit ctx.depth
        then (do modify_evm stop_reverted; pure [])
        else steps fuel code call ctx)
