-- ===== src/Tests/Progress.antt =====
-- A frame that ends within its gas.
use solenoid.Base.{◌≢◌, refl, inr, arith, List, ℕ, [], ◌∷◌}
use solenoid.Base.Int.{pos, ◌-ℤ◌, ◌+ℤ◌}
use solenoid.Base.I64.{sub_i64, wrap_i64}
use solenoid.Primitives.Native.{native}
use solenoid.Precompiles.Native.{native_crates}
use solenoid.Outcome.{unfinished}
use solenoid.Gas
use solenoid.Opcodes.{get_opcode, push_len}
use solenoid.Decoder.{decode, is_call}
use solenoid.Step.{op_of}
use solenoid.Step.Progress.Plain.{is_plain}
use solenoid.Frames.{run}
use solenoid.Frames.Progress.Ends.{run_ends}
use solenoid.Tests.Data.{call, context, with}

-- JUMPDEST, PUSH1 0, JUMP: without an end but by the gas.
abbrev looping : List ℕ
looping = 0x5b ∷ 0x60 ∷ 0x00 ∷ 0x56 ∷ []

run_ends_example : (run 1002 1 (decode looping) call context (with [] (pos 1000))).0 ≢ unfinished
unfolding decode get_opcode push_len is_call is_plain op_of Gas.remaining sub_i64 wrap_i64 ◌-ℤ◌ ◌+ℤ◌
run_ends_example =
    run_ends 1002 0 (decode looping) call context (with [] (pos 1000))
      (inr refl, (inr refl, (inr refl, tt)))
      (record { nonneg = omega arith; within = omega arith; small = omega arith }) (omega arith)
