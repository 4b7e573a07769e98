-- ===== src/Step/BinaryErrors.antt =====
-- How the arms of src/executor.rs for operations on two words fail.
use solenoid.Base.{◌≡◌, ◌∙◌, ◌==◌, ◌||◌, refl, ap, [], ◌∷◌, true, ltb, if◌then◌else◌}
use solenoid.Base.Int.{ℤ, pos, ◌≤ℤ◌, ◌<ℤ◌}
use solenoid.Base.I64.{add_i64}
use solenoid.Primitives.{Primitives}
use solenoid.Outcome.{Outcome, ok, err, panic, unfinished, executor, stack_underflow}
use solenoid.Word.{Word, word_of, is_zero, zero_word}
use solenoid.Gas
use solenoid.Evm
use solenoid.Machine.{
  Machine, Action, Handler, StepResult, ◌>>=◌, ◌>>◌, pop, push, pure, next, unwrap, need_gas,
}
use solenoid.Instr.Frame.{Frame}
use solenoid.Instr.Arith
use solenoid.Instr.Bits
use solenoid.Step.{handler}
use solenoid.Step.Binary.{
  BinaryOp, add, mul, sub, div, modulo, lt, gt, eq, and, or, xor, arm, price, with_stack, pop_run,
  bind_ok, need_gas_run, need_gas_halt,
}

-- The machine behind an exceptional halt: the frame has ended, and its gas is used up.
abbrev pub failed : Machine → Machine
failed s = record s {
  evm = record s.evm {
    stopped = true;
    reverted = true;
    gas = record s.evm.gas { used = add_i64 s.evm.gas.used (Gas.remaining s.evm.gas) };
  };
}

pop_empty : (s : Machine) → s.evm.stack ≡ [] → pop s ≡ (err (executor stack_underflow), failed s)
unfolding pop Evm.pop
pop_empty s e = rw e

module _ {A B : Type 0} where
  abbrev lift_err : (A → Action B) → Outcome A × Machine → Outcome B × Machine
  lift_err k (r, s) = elim r [
    | ok a ↦ k a s
    | err e ↦ (err e, s)
    | panic ↦ (panic, s)
    | unfinished ↦ (unfinished, s)
  ]

module _ ⦃prim : Primitives⦄ (system_call : Frame → Handler) (f : Frame) (s : Machine) where
  -- Without the gas for it, each of these arms reports its price as a halt and changes nothing.
  pub binary_halt :
      (op : BinaryOp)
      → Gas.remaining s.evm.gas <ℤ price op
      → handler system_call f (arm op) s ≡ (ok (StepResult.halt (price op)), s)
  unfolding handler Arith.add Arith.mul Arith.sub Arith.div Arith.mod' Bits.lt Bits.gt Bits.eq
      Bits.and Bits.or Bits.xor
  binary_halt add g = need_gas_halt (pos 3) _ s g
  binary_halt mul g = need_gas_halt (pos 5) _ s g
  binary_halt sub g = need_gas_halt (pos 3) _ s g
  binary_halt div g = need_gas_halt (pos 5) _ s g
  binary_halt modulo g = need_gas_halt (pos 5) _ s g
  binary_halt _ g = need_gas_halt (pos 3) _ s g

  module _ (w : Word) where
    no_second :
        (cost : ℤ) (k : Word → Word → Handler)
        → cost ≤ℤ Gas.remaining s.evm.gas
        → s.evm.stack ≡ w ∷ []
        → need_gas cost (do x ← pop; y ← pop; k x y) s
          ≡ (err (executor stack_underflow), failed (with_stack [] s))
    no_second cost k g e =
        need_gas_run cost (do x ← pop; y ← pop; k x y) s g
        ∙ bind_ok pop (λ x. do y ← pop; k x y) (pop_run s w [] e)
        ∙ ap (lift_err (k w)) (pop_empty (with_stack [] s) refl)

    value_underflow :
        (cost : ℤ) (g : Word → Word → Word)
        → cost ≤ℤ Gas.remaining s.evm.gas
        → s.evm.stack ≡ w ∷ []
        → need_gas cost (do x ← pop; y ← pop; push (g x y); next cost) s
          ≡ (err (executor stack_underflow), failed (with_stack [] s))
    value_underflow cost g = no_second cost (λ x y. do push (g x y); next cost)

    action_underflow :
        (cost : ℤ) (m : Word → Word → Action Word)
        → cost ≤ℤ Gas.remaining s.evm.gas
        → s.evm.stack ≡ w ∷ []
        → need_gas cost (do x ← pop; y ← pop; v ← m x y; push v; next cost) s
          ≡ (err (executor stack_underflow), failed (with_stack [] s))
    action_underflow cost m = no_second cost (λ x y. do v ← m x y; push v; next cost)

  -- With the gas for it and one word on the stack, each of these arms takes that word and ends the
  -- frame by an underflow that uses up the gas.
  pub binary_underflow :
      (op : BinaryOp) (w : Word)
      → price op ≤ℤ Gas.remaining s.evm.gas
      → s.evm.stack ≡ w ∷ []
      → handler system_call f (arm op) s
        ≡ (err (executor stack_underflow), failed (with_stack [] s))
  unfolding handler Arith.add Arith.mul Arith.sub Arith.div Arith.mod' Bits.lt Bits.gt Bits.eq
      Bits.and Bits.or Bits.xor unwrap
  binary_underflow add w = value_underflow w (pos 3) (λ x y. (prim.u256_overflowing_add x y).0)
  binary_underflow mul w = value_underflow w (pos 5) (λ x y. (prim.u256_overflowing_mul x y).0)
  binary_underflow sub w = value_underflow w (pos 3) (λ x y. (prim.u256_overflowing_sub x y).0)
  binary_underflow div w =
      action_underflow w (pos 5)
        (λ x y. if is_zero y || is_zero x then pure zero_word else unwrap (prim.u256_div x y))
  binary_underflow modulo w =
      action_underflow w (pos 5)
        (λ x y. if is_zero y then pure zero_word else unwrap (prim.u256_rem x y))
  binary_underflow lt w = value_underflow w (pos 3) (λ x y. word_of (ltb x y))
  binary_underflow gt w = value_underflow w (pos 3) (λ x y. word_of (ltb y x))
  binary_underflow eq w = value_underflow w (pos 3) (λ x y. word_of (x == y))
  binary_underflow and w = value_underflow w (pos 3) prim.u256_and
  binary_underflow or w = value_underflow w (pos 3) prim.u256_or
  binary_underflow xor w = value_underflow w (pos 3) prim.u256_xor
