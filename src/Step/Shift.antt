-- ===== src/Step/Shift.antt =====
-- The arms of src/executor.rs for SHL and SHR, against what they compute.
use solenoid.Base.{ℕ, ◌+◌, ◌*◌, ◌/◌, ◌%◌, ◌^◌, ◌<◌, ◌≡◌, ◌∙◌, refl, List, ◌∷◌, length}
use solenoid.Base.Int.{pos, ◌≤ℤ◌}
use solenoid.Base.I64.{two64}
use solenoid.Primitives.{Primitives, two256}
use solenoid.Outcome.{ok}
use solenoid.Word.{Word, as_usize}
use solenoid.Gas
use solenoid.Evm.{stack_limit}
use solenoid.Machine.{Machine, Handler, StepResult, ◌>>=◌, ◌>>◌, pop, push, next, unwrap, need_gas}
use solenoid.Instr.Frame.{Frame, pop_usize}
use solenoid.Instr.Bits
use solenoid.Step.{Op, handler}
use solenoid.Step.Binary.{with_stack, pop_run, push_run, bind_ok, need_gas_run}

pub data ShiftOp : Type 0 where
  shl shr : ShiftOp

abbrev pub arm : ShiftOp → Op
arm shl = Op.shl
arm shr = Op.shr

-- The word below the shift, shifted to the left or to the right.
abbrev pub meaning : ShiftOp → Word → Word → Word
meaning shl a b = (b * 2 ^ a) % two256
meaning shr a b = b / 2 ^ a

module _ ⦃prim : Primitives⦄ (system_call : Frame → Handler) (f : Frame) (s : Machine) (a b : Word)
    (rest : List Word) (operands : s.evm.stack ≡ a ∷ b ∷ rest) (room : length rest < stack_limit)
    (narrow : a < two64) (gas : pos 3 ≤ℤ Gas.remaining s.evm.gas) where
  abbrev after : Word → Machine
  after r = record s { evm = record s.evm { stack = r ∷ rest; pc = s.evm.pc + 1 } }

  pop_usize_run : pop_usize s ≡ (ok a, with_stack (b ∷ rest) s)
  unfolding pop_usize unwrap
  pop_usize_run =
      bind_ok pop (λ w. unwrap (as_usize w)) (pop_run s a (b ∷ rest) operands)
      ∙ rw (prim.u256_as_usize_fits a narrow) refl

  shift_arm :
      (g : Word → ℕ → Word) (r : Word)
      → g b a ≡ r
      → need_gas (pos 3) (do i ← pop_usize; w ← pop; push (g w i); next (pos 3)) s
        ≡ (ok (StepResult.done (pos 3)), after r)
  unfolding next
  shift_arm g r e =
      need_gas_run (pos 3) (do i ← pop_usize; w ← pop; push (g w i); next (pos 3)) s gas
      ∙ bind_ok pop_usize (λ i. do w ← pop; push (g w i); next (pos 3)) pop_usize_run
      ∙ bind_ok pop (λ w. do push (g w a); next (pos 3))
          (pop_run (with_stack (b ∷ rest) s) b rest refl)
      ∙ rw e (bind_ok (push r) (λ _. next (pos 3)) (push_run (with_stack rest s) r room))

  -- With three units of gas, room on the stack, and a shift below 2 ^ 64 on the top of the stack
  -- before another word, SHL and SHR replace both by that word times or divided by the power of
  -- two, modulo 2 ^ 256.
  pub shift_run :
      (op : ShiftOp)
      → handler system_call f (arm op) s ≡ (ok (StepResult.done (pos 3)), after (meaning op a b))
  unfolding handler Bits.shl Bits.shr
  shift_run shl = shift_arm prim.u256_shl _ (prim.u256_shl_law b a)
  shift_run shr = shift_arm prim.u256_shr _ (prim.u256_shr_law b a)
