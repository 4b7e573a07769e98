-- ===== src/Step/Wide.antt =====
-- The arms of src/executor.rs that read an operand by `as_usize`, when it does not fit 64 bits.
use solenoid.Base.{ℕ, ◌≡◌, ◌∙◌, ◌≤◌, ◌%◌, ◌*◌, refl, ap, List, ◌∷◌, ltb, get_elem?, if◌then◌else◌}
use solenoid.Base.Int.{ℤ, pos, ◌≤ℤ◌}
use solenoid.Base.I64.{two64, add_usize, sub_usize}
use solenoid.Primitives.{Primitives}
use solenoid.Outcome.{Outcome, ok, err, panic, unfinished}
use solenoid.Word.{Word, as_usize, into_bytes, zero_word, max_word, bit}
use solenoid.Gas
use solenoid.Machine.{
  Machine, Action, Handler, ◌>>=◌, ◌>>◌, pop, push, pure, next, unwrap, need_gas,
}
use solenoid.Instr.Frame.{Frame, pop_usize}
use solenoid.Instr.Arith
use solenoid.Instr.Bits
use solenoid.Step.{Op, handler}
use solenoid.Step.Binary.{with_stack, pop_run, bind_ok, need_gas_run}

pub data WideOp : Type 0 where
  byte shl shr sar signextend : WideOp

abbrev pub arm : WideOp → Op
arm byte = Op.byte
arm shl = Op.shl
arm shr = Op.shr
arm sar = Op.sar
arm signextend = Op.signextend

abbrev pub price : WideOp → ℤ
price signextend = pos 5
price _ = pos 3

abbrev continue : {A B : Type 0} → (A → Action B) → Outcome A × Machine → Outcome B × Machine
continue k (r, s) = elim r [
  | ok a ↦ k a s
  | err e ↦ (err e, s)
  | panic ↦ (panic, s)
  | unfinished ↦ (unfinished, s)
]

pub bind_panic :
    {A B : Type 0} (m : Action A) (k : A → Action B) {s t : Machine}
    → m s ≡ (panic, t)
    → (m >>= k) s ≡ (panic, t)
bind_panic m k e = ap (continue k) e

module _ ⦃prim : Primitives⦄ (system_call : Frame → Handler) (f : Frame) (s : Machine) (a : Word)
    (rest : List Word) (operand : s.evm.stack ≡ a ∷ rest) (wide : two64 ≤ a) where
  pop_usize_panics : pop_usize s ≡ (panic, with_stack rest s)
  unfolding pop_usize unwrap
  pop_usize_panics =
      bind_ok pop (λ w. unwrap (as_usize w)) (pop_run s a rest operand)
      ∙ rw (prim.u256_as_usize_panics a wide) refl

  wide_arm :
      (cost : ℤ) (k : ℕ → Handler)
      → cost ≤ℤ Gas.remaining s.evm.gas
      → need_gas cost (pop_usize >>= k) s ≡ (panic, with_stack rest s)
  wide_arm cost k g =
      need_gas_run cost (pop_usize >>= k) s g ∙ bind_panic pop_usize k pop_usize_panics

  -- BYTE, SHL, SHR, SAR and SIGNEXTEND panic, with the gas for them, when the word on the top of
  -- the stack, the shift or the index, does not fit 64 bits.
  pub wide_panics :
      (op : WideOp)
      → price op ≤ℤ Gas.remaining s.evm.gas
      → handler system_call f (arm op) s ≡ (panic, with_stack rest s)
  unfolding handler Bits.byte Bits.shl Bits.shr Bits.sar Arith.signextend
  wide_panics byte = wide_arm (pos 3) (λ i. do
    v ← pop
    r ← (if ltb i 32 then unwrap (get_elem? (into_bytes v) i) else pure zero_word)
    push r
    next (pos 3))
  wide_panics shl = wide_arm (pos 3) (λ i. do v ← pop; push (prim.u256_shl v i); next (pos 3))
  wide_panics shr = wide_arm (pos 3) (λ i. do v ← pop; push (prim.u256_shr v i); next (pos 3))
  wide_panics sar = wide_arm (pos 3) (λ i. do
    v ← pop
    r ← unwrap (prim.i256_shr (Arith.signed v) i)
    push (Arith.unsigned r)
    next (pos 3))
  wide_panics signextend = wide_arm (pos 5) (λ x. do
    b ← pop
    let at = sub_usize ((add_usize x 1 * 8) % two64) 1
    neg ← unwrap (bit b at)
    let mask = prim.u256_shl max_word (add_usize at 1)
    push (if neg then prim.u256_or b mask else prim.u256_and b (prim.u256_not mask))
    next (pos 5))
