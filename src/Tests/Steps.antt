-- ===== src/Tests/Steps.antt =====
-- Tests of the instructions.
use solenoid.Base.{◌^◌, ◌-◌, drop, ◌≡◌, refl, arith, true, [], ◌∷◌, List, ℕ}
use solenoid.Base.Int.{pos, ◌-ℤ◌}
use solenoid.Base.I64.{sub_i64, wrap_i64}
use solenoid.Primitives.Native.{native}
use solenoid.Outcome.{ok, err, panic, executor, stack_underflow}
use solenoid.Word.{Word}
use solenoid.Gas
use solenoid.Evm.Revert.{revert}
use solenoid.Ext.{is_storage_warm}
use solenoid.Machine.{Machine, StepResult}
use solenoid.Machine.Keeps.{Keeps}
use solenoid.Instr.Frame.{Frame, this_address}
use solenoid.Instr.Storage.{sload}
use solenoid.Instr.Storage.Short.{sload_stays_warm}
use solenoid.Step.{Op, handler, execute_instruction}
use solenoid.Step.Sound.{IsSound}
use solenoid.Step.Invariant.{execute_instruction-IsSound}
use solenoid.Step.Binary
use solenoid.Step.Binary.{BinaryOp, with_stack, binary_run}
use solenoid.Step.BinaryErrors.{failed, binary_underflow}
use solenoid.Step.Shift
use solenoid.Step.Shift.{ShiftOp, shift_run}
use solenoid.Step.Push.{first_bytes, push_n_run}
use solenoid.Decoder.{decode_at}
use solenoid.Primitives.Bytes.{be_value}
use solenoid.Step.Wide
use solenoid.Step.Wide.{WideOp, wide_panics}
use solenoid.Step.Modulo.{mulmod_run}
use solenoid.Tests.Data.{frame, with, no_calls}

no_calls-IsSound : (f : Frame) → Keeps IsSound (no_calls f)
no_calls-IsSound f = record { at = λ s h. h }

execute_instruction-IsSound_example :
    IsSound (execute_instruction no_calls frame (with (7 ∷ 2 ∷ []) (pos 100))).1
execute_instruction-IsSound_example =
    execute_instruction-IsSound no_calls no_calls-IsSound frame (with (7 ∷ 2 ∷ []) (pos 100))
      (record { stack_fits = omega arith; aligned = refl })

-- 7 divided by 2, with a third word below.
abbrev dividing : Machine
dividing = with (7 ∷ 2 ∷ 1 ∷ []) (pos 100)

binary_run_example : handler no_calls frame (Binary.arm BinaryOp.div) dividing ≡ (
  ok (StepResult.done (pos 5)),
  record dividing { evm = record dividing.evm { stack = 3 ∷ 1 ∷ []; pc = 1 } },
)
unfolding Gas.remaining sub_i64 wrap_i64 ◌-ℤ◌
binary_run_example =
    binary_run no_calls frame dividing 7 2 (1 ∷ []) refl (omega arith) (omega arith) (omega arith)
      BinaryOp.div (omega arith)

abbrev poor : Machine
poor = with (7 ∷ 2 ∷ []) (pos 4)

abbrev lonely : Machine
lonely = with (7 ∷ []) (pos 100)

binary_underflow_example :
    handler no_calls frame (Binary.arm BinaryOp.add) lonely
    ≡ (err (executor stack_underflow), failed (with_stack [] lonely))
unfolding Gas.remaining sub_i64 wrap_i64 ◌-ℤ◌
binary_underflow_example = binary_underflow no_calls frame lonely BinaryOp.add 7 (omega arith) refl

abbrev shifting : Machine
shifting = with (2 ^ 64 ∷ 1 ∷ []) (pos 100)

wide_panics_example :
    handler no_calls frame (Wide.arm WideOp.shl) shifting ≡ (panic, with_stack (1 ∷ []) shifting)
unfolding Gas.remaining sub_i64 wrap_i64 ◌-ℤ◌
wide_panics_example =
    wide_panics no_calls frame shifting (2 ^ 64) (1 ∷ []) refl (omega arith) WideOp.shl
      (omega arith)

abbrev large : Word
large = 2 ^ 256 - 1

abbrev reducing : Machine
reducing = with (large ∷ large ∷ 12 ∷ []) (pos 100)

mulmod_run_example : handler no_calls frame Op.mulmod reducing ≡ (
  ok (StepResult.done (pos 8)),
  record reducing { evm = record reducing.evm { stack = 9 ∷ []; pc = 1 } },
)
unfolding Gas.remaining sub_i64 wrap_i64 ◌-ℤ◌
mulmod_run_example =
    mulmod_run no_calls frame reducing large large 12 [] refl (omega arith) (omega arith)
      (omega arith)

abbrev loading : Machine
loading = with (3 ∷ []) (pos 2000)

sload_stays_warm_example :
    (sload frame loading).1.evm.touches ≡ []
    × (is_storage_warm
          (this_address frame)
          3
          (revert (sload frame loading).1.evm (sload frame loading).1.ext).1
        ≡ true)
unfolding Gas.remaining sub_i64 wrap_i64 ◌-ℤ◌
sload_stays_warm_example = sload_stays_warm frame loading 3 [] refl refl (omega arith) refl

abbrev halving : Machine
halving = with (1 ∷ 7 ∷ []) (pos 100)

shift_run_example : handler no_calls frame (Shift.arm ShiftOp.shr) halving ≡ (
  ok (StepResult.done (pos 3)),
  record halving { evm = record halving.evm { stack = 3 ∷ []; pc = 1 } },
)
unfolding Gas.remaining sub_i64 wrap_i64 ◌-ℤ◌
shift_run_example =
    shift_run no_calls frame halving 1 7 [] refl (omega arith) (omega arith) (omega arith)
      ShiftOp.shr

-- The code ends behind the first of the two bytes of PUSH2.
abbrev cut_off : List ℕ
cut_off = 0x61 ∷ 0x05 ∷ []

abbrev pushing : Frame
pushing = record frame { instruction = decode_at cut_off 0 }

push_n_run_example : handler no_calls pushing Op.push halving ≡ (
  ok (StepResult.done (pos 3)),
  record halving {
    evm = record halving.evm {
      stack = be_value (first_bytes 2 (drop 1 cut_off)) ∷ 1 ∷ 7 ∷ [];
      pc = 1;
    };
  },
)
unfolding Gas.remaining sub_i64 wrap_i64 ◌-ℤ◌
push_n_run_example =
    push_n_run no_calls pushing halving cut_off 0 refl (omega arith) (omega arith) (omega arith)
      (omega arith)
