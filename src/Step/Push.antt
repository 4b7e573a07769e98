-- ===== src/Step/Push.antt =====
-- The arm of src/executor.rs for PUSH1 to PUSH32, on the instructions of src/decoder.rs.

use solenoid.Base.{
  ℕ, ◌+◌, ◌-◌, ◌≤◌, ◌<◌, ◌≡◌, refl, ◌∙◌, ap, some, List, ◌∷◌, arith, length, get_or, length-resize,
  ◌++◌, zero, suc, [], min, take, drop, length-drop,
}
use solenoid.Base.Lists.{resize, replicate}
use solenoid.Base.Int.{pos, ◌≤ℤ◌}
use solenoid.Primitives.{Primitives}
use solenoid.Primitives.Bytes.{be_value}
use solenoid.Outcome.{ok}
use solenoid.Word.{from_bytes}
use solenoid.Gas
use solenoid.Evm.{stack_limit}
use solenoid.Opcodes.{get_opcode, push_len}
use solenoid.Opcodes.Table.{push_len-get_opcode}
use solenoid.Decoder.{Instruction, decode_at, push_argument}
use solenoid.Machine.{Machine, Handler, StepResult, ◌>>=◌, ◌>>◌, push, next}
use solenoid.Instr.Frame.{Frame}
use solenoid.Instr.Stack
use solenoid.Instr.Stack.{or_missing}
use solenoid.Step.{Op, handler}
use solenoid.Step.Binary.{push_run, bind_ok, need_gas_run}

length-push_argument :
    (bytecode : List ℕ) (from len : ℕ) → length (push_argument bytecode from len) ≡ len
unfolding push_argument
length-push_argument bytecode from len = length-resize len 0 _

-- The first bytes of a list, with zeros past its end.
abbrev pub first_bytes : ℕ → List ℕ → List ℕ
first_bytes zero l = []
first_bytes (suc n) [] = 0 ∷ first_bytes n []
first_bytes (suc n) (b ∷ l) = b ∷ first_bytes n l

zeros_lem : (n : ℕ) → replicate n 0 ≡ first_bytes n []
zeros_lem zero = refl
zeros_lem (suc n) = ap (λ l. 0 ∷ l) (zeros_lem n)

all_zeros : (n : ℕ) → resize n 0 [] ≡ first_bytes n []
unfolding resize
all_zeros zero = refl
all_zeros (suc n) = ap (λ m. replicate m 0) {y = suc n} (omega arith) ∙ zeros_lem (suc n)

resize-take :
    (n : ℕ) (l : List ℕ) (k : ℕ) → k ≡ min n (length l) → resize n 0 (take k l) ≡ first_bytes n l
unfolding resize
resize-take zero l k e = let nothing : 0 - length (take k l) ≡ 0 = omega arith in rw nothing refl
resize-take (suc n) [] zero e = all_zeros (suc n)
resize-take (suc n) [] (suc k) e = all_zeros (suc n)
resize-take (suc n) (b ∷ l) zero e = absurd (omega (arith, e))
resize-take (suc n) (b ∷ l) (suc k) e =
    ap (λ m. b ∷ (take n (take k l) ++ replicate m 0)) {y = n - length (take k l)} (omega arith)
    ∙ ap (λ x. b ∷ x) (resize-take n l k (omega (arith, e)))

push_argument_lem :
    (bytecode : List ℕ) (from len : ℕ)
    → push_argument bytecode from len ≡ first_bytes len (drop from bytecode)
unfolding push_argument
push_argument_lem bytecode from len =
    resize-take len (drop from bytecode) _ (omega (arith, length-drop from bytecode))

-- The argument of a push instruction: as many bytes as its opcode says.
decoded_argument :
    (bytecode : List ℕ) (at : ℕ)
    → 0x60 ≤ get_or bytecode at 0
    → get_or bytecode at 0 < 0x80
    → (decode_at bytecode at).argument
      ≡ some (push_argument bytecode (at + 1) (get_or bytecode at 0 - 0x5f))
unfolding decode_at
decoded_argument bytecode at low high =
    let v = get_or bytecode at 0 in
    let size : push_len (get_opcode v) ≡ v - 0x5f =
      push_len-get_opcode v (omega arith) ∙ ground arith in
    rw size (ground arith)

module _ ⦃prim : Primitives⦄ (system_call : Frame → Handler) (f : Frame) (s : Machine)
    (bytecode : List ℕ) (at : ℕ) (decoded : f.instruction ≡ decode_at bytecode at)
    (low : 0x60 ≤ get_or bytecode at 0) (high : get_or bytecode at 0 < 0x80)
    (room : length s.evm.stack < stack_limit) (gas : pos 3 ≤ℤ Gas.remaining s.evm.gas) where
  abbrev argument : List ℕ
  argument = push_argument bytecode (at + 1) (get_or bytecode at 0 - 0x5f)

  -- The bytes behind the opcode, as many as it says.
  abbrev pushed : List ℕ
  pushed = first_bytes (get_or bytecode at 0 - 0x5f) (drop (at + 1) bytecode)

  -- With the gas for it and room on the stack, the instruction decoded at a byte from 0x60 to 0x7f
  -- pushes the number that the following 1 to 32 bytes stand for, big end first, where bytes past
  -- the end of the code are zeros.
  pub push_n_run : handler system_call f Op.push s ≡ (
    ok (StepResult.done (pos 3)),
    record s { evm = record s.evm { stack = be_value pushed ∷ s.evm.stack; pc = s.evm.pc + 1 } },
  )
  unfolding handler Stack.push_n next or_missing
  push_n_run =
      let there : f.instruction.argument ≡ some argument =
        ap (λ (i : Instruction). i.argument) decoded ∙ decoded_argument bytecode at low high in
      let same : argument ≡ pushed =
        push_argument_lem bytecode (at + 1) (get_or bytecode at 0 - 0x5f) in
      let value : from_bytes argument ≡ be_value argument =
        prim.u256_from_big_endian_law argument
          (omega (arith, length-push_argument bytecode (at + 1) (get_or bytecode at 0 - 0x5f))) in
      let found : or_missing f.instruction.argument s ≡ (ok argument, s) =
        ap (λ o. or_missing o s) there in
      need_gas_run (pos 3)
        (do arg ← or_missing f.instruction.argument; push (from_bytes arg); next (pos 3)) s gas
      ∙ bind_ok (or_missing f.instruction.argument) (λ arg. do push (from_bytes arg); next (pos 3))
          found
      ∙ rw (value, same)
          (bind_ok (push (be_value pushed)) (λ _. next (pos 3)) (push_run s (be_value pushed) room))
