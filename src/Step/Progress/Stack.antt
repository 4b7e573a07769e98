-- ===== src/Step/Progress/Stack.antt =====
-- PUSH, DUP and SWAP ask for a charge of more than 0.
use solenoid.Base.{ℕ, refl, Bool-cases, inl, inr, Option, none, some, List, length, ltb}
use solenoid.Primitives.{Primitives}
use solenoid.Evm.{error}
use solenoid.Machine.{modify_evm, on_evm}
use solenoid.Instr.Frame.{Frame}
use solenoid.Instr.Memory
use solenoid.Instr.Stack
use solenoid.Step.Progress.{AsksGas, KeepsGas, progress_rules, modify_evm-KeepsGas}

need_stack-KeepsGas : (n : ℕ) → KeepsGas (Stack.need_stack n)
unfolding Stack.need_stack on_evm error
need_stack-KeepsGas n = record {
  at = λ s. elim (Bool-cases (ltb (length s.evm.stack) n)) [
    | inl h ↦ rw (Stack.need_stack, h) tt
    | inr h ↦ rw (Stack.need_stack, h) (record { limit = refl; used = refl })
  ];
}

swap_top-KeepsGas :
    (n : ℕ) → KeepsGas (modify_evm (λ evm. record evm { stack = Stack.swap_top n evm.stack }))
swap_top-KeepsGas n = modify_evm-KeepsGas _ λ evm. refl

or_missing-KeepsGas : (o : Option (List ℕ)) → KeepsGas (Stack.or_missing o)
unfolding Stack.or_missing
or_missing-KeepsGas none = search progress_rules
or_missing-KeepsGas (some arg) = search progress_rules

pub push0-AsksGas : AsksGas Stack.push0
unfolding Stack.push0
push0-AsksGas = search progress_rules depth 24

module _ (f : Frame) where
  pub dup-AsksGas : AsksGas (Stack.dup f)
  unfolding Stack.dup
  dup-AsksGas = search (progress_rules, need_stack-KeepsGas) depth 24

  pub swap-AsksGas : AsksGas (Stack.swap f)
  unfolding Stack.swap
  swap-AsksGas = search (progress_rules, need_stack-KeepsGas, swap_top-KeepsGas) depth 24

module _ ⦃prim : Primitives⦄ (f : Frame) where
  pub push_n-AsksGas : AsksGas (Stack.push_n f)
  unfolding Stack.push_n
  push_n-AsksGas = search (progress_rules, or_missing-KeepsGas) depth 24

pub pop_op-AsksGas : AsksGas Memory.pop_op
unfolding Memory.pop_op
pop_op-AsksGas = search progress_rules depth 24
