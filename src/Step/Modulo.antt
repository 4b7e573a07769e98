-- ===== src/Step/Modulo.antt =====
-- The arms of src/executor.rs for ADDMOD and MULMOD, against what they compute.
use solenoid.Base.{
  ◌+◌, ◌*◌, ◌%◌, ◌<◌, ◌≡◌, ◌∙◌, ◌==◌, refl, Bool-cases, inl, inr, List, ◌∷◌, length, if◌then◌else◌,
}
use solenoid.Base.Int.{pos, ◌≤ℤ◌}
use solenoid.Primitives.{Primitives, two256}
use solenoid.Outcome.{ok, panic}
use solenoid.Word.{Word, add_modulo, mul_modulo, is_zero, zero_word}
use solenoid.Word.Modulo.{add_modulo_lem, mul_modulo_lem}
use solenoid.Gas
use solenoid.Evm.{stack_limit}
use solenoid.Machine.{
  Machine, Handler, StepResult, ◌>>=◌, ◌>>◌, pure, unwrap, pop, push, need_gas, next,
}
use solenoid.Instr.Frame.{Frame}
use solenoid.Instr.Arith
use solenoid.Step.{Op, handler}
use solenoid.Step.Binary.{with_stack, pop_run, push_run, bind_ok, need_gas_run}

module _ ⦃prim : Primitives⦄ (system_call : Frame → Handler) (f : Frame) (s : Machine)
    (a b m : Word) (rest : List Word) (operands : s.evm.stack ≡ a ∷ b ∷ m ∷ rest)
    (gas : pos 8 ≤ℤ Gas.remaining s.evm.gas) where
  abbrev pushed : Word → Machine
  pushed r = record s { evm = record s.evm { stack = r ∷ rest; pc = s.evm.pc + 1 } }

  three_pops :
      (k : Word → Word → Word → Handler)
      → need_gas (pos 8) (do x ← pop; y ← pop; z ← pop; k x y z) s ≡ k a b m (with_stack rest s)
  three_pops k =
      need_gas_run (pos 8) (do x ← pop; y ← pop; z ← pop; k x y z) s gas
      ∙ bind_ok pop (λ x. do y ← pop; z ← pop; k x y z) (pop_run s a (b ∷ m ∷ rest) operands)
      ∙ bind_ok pop (λ y. do z ← pop; k a y z)
          (pop_run (with_stack (b ∷ m ∷ rest) s) b (m ∷ rest) refl)
      ∙ bind_ok pop (k a b) (pop_run (with_stack (m ∷ rest) s) m rest refl)

  push_result :
      (r : Word)
      → length rest < stack_limit
      → (do push r; next (pos 8)) (with_stack rest s) ≡ (ok (StepResult.done (pos 8)), pushed r)
  unfolding next
  push_result r fits = bind_ok (push r) (λ _. next (pos 8)) (push_run (with_stack rest s) r fits)

  -- With the gas for it, and room on the stack, ADDMOD replaces three words below 2 ^ 256 by the remainder of the full sum of the two
  -- upper ones by the third, and by 0 when the third is 0.
  pub addmod_run :
      a < two256
      → b < two256
      → m < two256
      → length rest < stack_limit
      → handler system_call f Op.addmod s
        ≡ (ok (StepResult.done (pos 8)), pushed (if m == 0 then 0 else (a + b) % m))
  unfolding handler Arith.addmod unwrap
  addmod_run a_fits b_fits m_fits fits =
      let k : Word → Word → Word → Handler = λ x y z. (do
        r ← (if is_zero z then pure zero_word else unwrap (add_modulo x y z))
        push r
        next (pos 8)) in
      three_pops k ∙ elim (Bool-cases (m == 0)) [
        | inl zero_modulus ↦ rw zero_modulus (push_result 0 fits)
        | inr positive ↦
            rw (positive, add_modulo_lem a b m a_fits b_fits m_fits, positive)
              (push_result ((a + b) % m) fits)
      ]

  -- With the gas for it, and room on the stack, MULMOD replaces three words, the third below
  -- 2 ^ 256, by the remainder of the full product of the
  -- two upper ones by the third, unless the third is 0: then it panics.
  pub mulmod_run :
      m < two256
      → length rest < stack_limit
      → handler system_call f Op.mulmod s ≡ (
          if m == 0
          then (panic, with_stack rest s)
          else (ok (StepResult.done (pos 8)), pushed ((a * b) % m)))
  unfolding handler Arith.mulmod unwrap
  mulmod_run m_fits fits =
      let k : Word → Word → Word → Handler =
        λ x y z. (do r ← unwrap (mul_modulo x y z); push r; next (pos 8)) in
      three_pops k ∙ elim (Bool-cases (m == 0)) [
        | inl zero_modulus ↦ rw (mul_modulo_lem a b m m_fits, zero_modulus) refl
        | inr positive ↦ rw (mul_modulo_lem a b m m_fits, positive) (push_result ((a * b) % m) fits)
      ]
