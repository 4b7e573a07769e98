-- ===== src/Step/Binary.antt =====
-- The arms of src/executor.rs for operations on two words, against what they compute.
use solenoid.Base.{
  ◌+◌, ◌-◌, ◌*◌, ◌/◌, ◌%◌, ◌<◌, ◌≡◌, ◌==◌, ◌||◌, refl, ap, ◌∙◌, Bool-cases, inl, inr, List, ◌∷◌,
  arith, length, bit_and, bit_or, bit_xor, ltb, if◌then◌else◌,
}
use solenoid.Base.Int.{ℤ, pos, ◌≤ℤ◌, ◌<ℤ◌}
use solenoid.Primitives.{Primitives, two256}
use solenoid.Outcome.{Outcome, ok, err, panic, unfinished}
use solenoid.Word.{Word, word_of, is_zero, zero_word}
use solenoid.Gas
use solenoid.Evm
use solenoid.Evm.{Evm, stack_limit}
use solenoid.Machine.{
  Machine, Action, Handler, StepResult, ◌>>=◌, ◌>>◌, pure, unwrap, pop, push, need_gas, next,
}
use solenoid.Instr.Frame.{Frame}
use solenoid.Instr.Arith
use solenoid.Instr.Bits
use solenoid.Step.{Op, handler}

pub data BinaryOp : Type 0 where
  add mul sub div modulo lt gt eq and or xor : BinaryOp

abbrev pub arm : BinaryOp → Op
arm add = Op.add
arm mul = Op.mul
arm sub = Op.sub
arm div = Op.div
arm modulo = Op.modulo
arm lt = Op.lt
arm gt = Op.gt
arm eq = Op.eq
arm and = Op.and
arm or = Op.or
arm xor = Op.xor

abbrev pub price : BinaryOp → ℤ
price mul = pos 5
price div = pos 5
price modulo = pos 5
price _ = pos 3

-- What the yellow paper says of the top word `a` and the next word `b`.
abbrev pub meaning : BinaryOp → Word → Word → Word
meaning add a b = (a + b) % two256
meaning mul a b = (a * b) % two256
meaning sub a b = (a + two256 - b) % two256
meaning div a b = if b == 0 then 0 else a / b
meaning modulo a b = if b == 0 then 0 else a % b
meaning lt a b = if ltb a b then 1 else 0
meaning gt a b = if ltb b a then 1 else 0
meaning eq a b = if a == b then 1 else 0
meaning and a b = bit_and a b
meaning or a b = bit_or a b
meaning xor a b = bit_xor a b

abbrev pub with_stack : List Word → Machine → Machine
with_stack stack s = record s { evm = record s.evm { stack = stack } }

pub pop_run :
    (s : Machine) (w : Word) (rest : List Word)
    → s.evm.stack ≡ w ∷ rest
    → pop s ≡ (ok w, with_stack rest s)
unfolding pop Evm.pop
pop_run s w rest e = rw e

pub push_run :
    (s : Machine) (w : Word)
    → length s.evm.stack < stack_limit
    → push w s ≡ (ok tt, with_stack (w ∷ s.evm.stack) s)
unfolding push Evm.push
push_run s w h = ground arith

abbrev continue : {A B : Type 0} → (A → Action B) → Outcome A × Machine → Outcome B × Machine
continue k (r, s) = elim r [
  | ok a ↦ k a s
  | err e ↦ (err e, s)
  | panic ↦ (panic, s)
  | unfinished ↦ (unfinished, s)
]

pub bind_ok :
    {A B : Type 0} (m : Action A) (k : A → Action B) {a : A} {s t : Machine}
    → m s ≡ (ok a, t)
    → (m >>= k) s ≡ k a t
bind_ok m k e = ap (continue k) e

pub need_gas_run :
    (gas : ℤ) (rest : Handler) (s : Machine)
    → gas ≤ℤ Gas.remaining s.evm.gas
    → need_gas gas rest s ≡ rest s
unfolding need_gas
need_gas_run gas rest s h = ground arith

pub need_gas_halt :
    (gas : ℤ) (rest : Handler) (s : Machine)
    → Gas.remaining s.evm.gas <ℤ gas
    → need_gas gas rest s ≡ (ok (StepResult.halt gas), s)
unfolding need_gas
need_gas_halt gas rest s h = ground arith

module _ ⦃prim : Primitives⦄ (a b : Word) (s : Machine) where
  div_value :
      (if is_zero b || is_zero a then pure zero_word else unwrap (prim.u256_div a b)) s
      ≡ (ok (meaning div a b), s)
  unfolding unwrap
  div_value = elim (Bool-cases (b == 0)) [
    | inl zero_divisor ↦ rw zero_divisor
    | inr divides ↦ elim (Bool-cases (a == 0)) [
      | inl zero ↦
          let e : a ≡ 0 = ground arith in
          let q : a / b ≡ 0 = rw e (omega arith) in rw (divides, zero, q)
      | inr nonzero ↦ rw (divides, nonzero, prim.u256_div_law a b, divides)
    ]
  ]

  rem_value :
      (if is_zero b then pure zero_word else unwrap (prim.u256_rem a b)) s
      ≡ (ok (meaning modulo a b), s)
  unfolding unwrap
  rem_value = elim (Bool-cases (b == 0)) [
    | inl zero_divisor ↦ rw zero_divisor
    | inr divides ↦ rw (divides, prim.u256_rem_law a b, divides)
  ]

module _ ⦃prim : Primitives⦄ (system_call : Frame → Handler) (f : Frame) (s : Machine) (a b : Word)
    (rest : List Word) (operands : s.evm.stack ≡ a ∷ b ∷ rest) (fits : length rest < stack_limit)
    (a_fits : a < two256) (b_fits : b < two256) where
  -- The machine behind the arm that pushes `r`.
  abbrev after : Word → Machine
  after r = record s { evm = record s.evm { stack = r ∷ rest; pc = s.evm.pc + 1 } }

  push-next :
      (cost : ℤ) (r : Word)
      → (do push r; next cost) (with_stack rest s) ≡ (ok (StepResult.done cost), after r)
  unfolding next
  push-next cost r = bind_ok (push r) (λ _. next cost) (push_run (with_stack rest s) r fits)

  two_pops :
      (cost : ℤ) (k : Word → Word → Handler) (r : Word)
      → cost ≤ℤ Gas.remaining s.evm.gas
      → k a b (with_stack rest s) ≡ (ok (StepResult.done cost), after r)
      → need_gas cost (do x ← pop; y ← pop; k x y) s ≡ (ok (StepResult.done cost), after r)
  two_pops cost k r g e =
      need_gas_run cost (do x ← pop; y ← pop; k x y) s g
      ∙ bind_ok pop (λ x. pop >>= k x) (pop_run s a (b ∷ rest) operands)
      ∙ bind_ok pop (k a) (pop_run (with_stack (b ∷ rest) s) b rest refl)
      ∙ e

  -- The arms that push a value, and those that compute it by an action.
  value_arm :
      (cost : ℤ) (g : Word → Word → Word) (r : Word)
      → cost ≤ℤ Gas.remaining s.evm.gas
      → g a b ≡ r
      → need_gas cost (do x ← pop; y ← pop; push (g x y); next cost) s
        ≡ (ok (StepResult.done cost), after r)
  value_arm cost g r h e =
      two_pops cost (λ x y. do push (g x y); next cost) r h (rw e (push-next cost r))

  action_arm :
      (cost : ℤ) (m : Word → Word → Action Word) (r : Word)
      → cost ≤ℤ Gas.remaining s.evm.gas
      → m a b (with_stack rest s) ≡ (ok r, with_stack rest s)
      → need_gas cost (do x ← pop; y ← pop; v ← m x y; push v; next cost) s
        ≡ (ok (StepResult.done cost), after r)
  action_arm cost m r h e =
      two_pops cost (λ x y. do v ← m x y; push v; next cost) r h
        (bind_ok (m a b) (λ v. do push v; next cost) e ∙ push-next cost r)

  -- With the gas for it, and two words below 2 ^ 256 on a stack that is within its limit, each of
  -- these arms replaces the two top words by what it computes, moves
  -- to the next instruction, costs its price and changes nothing else.
  pub binary_run :
      (op : BinaryOp)
      → price op ≤ℤ Gas.remaining s.evm.gas
      → handler system_call f (arm op) s ≡ (ok (StepResult.done (price op)), after (meaning op a b))
  unfolding handler Arith.add Arith.mul Arith.sub Arith.div Arith.mod' Bits.lt Bits.gt Bits.eq
      Bits.and Bits.or Bits.xor unwrap
  binary_run add g =
      value_arm (pos 3) (λ x y. (prim.u256_overflowing_add x y).0) _ g
        (rw (prim.u256_overflowing_add_law a b))
  binary_run mul g =
      value_arm (pos 5) (λ x y. (prim.u256_overflowing_mul x y).0) _ g
        (rw (prim.u256_overflowing_mul_law a b))
  binary_run sub g =
      value_arm (pos 3) (λ x y. (prim.u256_overflowing_sub x y).0) _ g
        (rw (prim.u256_overflowing_sub_law a b a_fits b_fits))
  binary_run div g =
      action_arm (pos 5)
        (λ x y. if is_zero y || is_zero x then pure zero_word else unwrap (prim.u256_div x y)) _ g
        (div_value a b (with_stack rest s))
  binary_run modulo g =
      action_arm (pos 5) (λ x y. if is_zero y then pure zero_word else unwrap (prim.u256_rem x y)) _
        g (rem_value a b (with_stack rest s))
  binary_run lt g = value_arm (pos 3) (λ x y. word_of (ltb x y)) _ g refl
  binary_run gt g = value_arm (pos 3) (λ x y. word_of (ltb y x)) _ g refl
  binary_run eq g = value_arm (pos 3) (λ x y. word_of (x == y)) _ g refl
  binary_run and g = value_arm (pos 3) prim.u256_and _ g (prim.u256_and_law a b)
  binary_run or g = value_arm (pos 3) prim.u256_or _ g (prim.u256_or_law a b)
  binary_run xor g = value_arm (pos 3) prim.u256_xor _ g (prim.u256_xor_law a b)
