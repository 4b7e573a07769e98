-- ===== src/Frames/Sound/Tree.antt =====
-- The invariant of the machine for a frame with all the frames that it runs.
use solenoid.Base.{ℕ, zero, suc, arith}
use solenoid.Primitives.{Primitives}
use solenoid.Precompiles.Interface.{Crates}
use solenoid.Types.{Call, Context}
use solenoid.Decoder.{Bytecode}
use solenoid.Machine.{Machine, Action, next}
use solenoid.Machine.Keeps.{Keeps}
use solenoid.Base.Int.{ℤ}
use solenoid.Instr.Frame.{Frame}
use solenoid.Frames.{run}
use solenoid.Frames.Inner.{Runner, enter}
use solenoid.Frames.System.{
  or_halt, check_value, create_op, call_op, callcode, delegatecall, create2_op, staticcall,
  system_call,
}
use solenoid.Step.Sound.{IsSound}
use solenoid.Frames.Sound.{frame_rules}
use solenoid.Frames.Sound.Call.{call-IsSound}
use solenoid.Frames.Sound.Create.{create-IsSound}
use solenoid.Frames.Sound.Loop.{execute_with_context-IsSound}

or_halt-IsSound : (m : Action ℤ) → Keeps IsSound m → Keeps IsSound (or_halt m)
unfolding or_halt next
or_halt-IsSound m k = record { at = λ s h. ground (arith, k.at s h) }

check_value-IsSound : (f : Frame) → Keeps IsSound (check_value f)
unfolding check_value
check_value-IsSound f = record { at = λ s h. ground arith }

module _ ⦃prim : Primitives⦄ ⦃crates : Crates⦄ where
  system_call-IsSound : (run : Runner) (f : Frame) → Keeps IsSound (system_call run f)
  unfolding system_call create_op call_op callcode delegatecall create2_op staticcall
  system_call-IsSound run f =
      search (frame_rules, or_halt-IsSound, check_value-IsSound, call-IsSound, create-IsSound) depth
        24

  -- From a machine whose stack holds at most 1024 words and whose memory is a whole number of
  -- 32-byte words, a frame with all the frames that it runs ends in such a machine, however it ends,
  -- on any fuel.
  pub run-IsSound :
      (fuel levels : ℕ) (code : Bytecode) (call : Call) (ctx : Context) (s : Machine)
      → IsSound s
      → IsSound (run fuel levels code call ctx s).1
  unfolding run
  run-IsSound fuel zero code call ctx s h = h
  run-IsSound fuel (suc levels) code call ctx s h =
      let inner = enter ctx.depth (run fuel levels) in
      (execute_with_context-IsSound (system_call inner) (system_call-IsSound inner) fuel code call
          ctx).at
        s h
