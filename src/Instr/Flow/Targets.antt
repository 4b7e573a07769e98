-- ===== src/Instr/Flow/Targets.antt =====
-- Where JUMP and JUMPI of src/executor.rs lead, in a code that src/decoder.rs decoded.

use solenoid.Base.{
  ℕ, ◌≡◌, ◌≢◌, refl, ap, sym, ◌∙◌, ◌==◌, none, some, List, arith, get_elem?, if◌then◌else◌,
}
use solenoid.Decoder.{Instruction, decode, resolve_jump}
use solenoid.Decoder.Jumps.{IsTarget, resolve_jump_complete}
use solenoid.Instr.Frame.{Frame}
use solenoid.Instr.Flow.{code_at, jump_target, jumpi_target}

module _ (f : Frame) (bytecode : List ℕ) (decoded : f.code ≡ decode bytecode) where
  -- In a decoded code, both JUMP and JUMPI lead to each JUMPDEST instruction that was decoded at an
  -- offset other than 0.
  pub jump_target_complete :
      (offset dest : ℕ)
      → offset ≢ 0
      → IsTarget f.code.instructions offset dest
      → (jump_target f offset ≡ some dest) × (jumpi_target f offset ≡ some dest)
  unfolding jump_target jumpi_target
  jump_target_complete offset dest h (i, at, o, c) =
      let at' : get_elem? (decode bytecode).instructions dest ≡ some i =
        ap (λ code. get_elem? code.instructions dest) (sym decoded) ∙ at in
      let found : resolve_jump (decode bytecode) i.offset ≡ some dest =
        resolve_jump_complete bytecode dest i at' c (rw o h) in
      let found' : resolve_jump f.code offset ≡ some dest =
        ap (λ code. resolve_jump code offset) decoded
        ∙ ap (resolve_jump (decode bytecode)) (sym o)
        ∙ found in
      let there : code_at f dest ≡ some 0x5b = rw (code_at, at) (ap some c) in
      (rw (jump_target, found', there) refl, rw (jumpi_target, found', there) refl)

  -- In a decoded code, JUMPI to offset 0 leads to the first instruction of a code that is not empty, whether it is a
  -- JUMPDEST or not, where JUMP demands one.
  pub jumpi_target-zero :
      (i : Instruction)
      → get_elem? f.code.instructions 0 ≡ some i
      → (jumpi_target f 0 ≡ some 0)
        × (jump_target f 0 ≡ (if i.opcode.code == 0x5b then some 0 else none))
  unfolding jump_target jumpi_target resolve_jump
  jumpi_target-zero i at =
      let there : code_at f 0 ≡ some i.opcode.code = rw (code_at, at) refl in ground (arith, there)
