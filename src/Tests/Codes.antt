-- ===== src/Tests/Codes.antt =====
-- Tests of the decoder and of the opcode table.
use solenoid.Base.{◌≡◌, refl, arith, none, some, get_elem?, get_or}
use solenoid.Opcodes.{opcode, get_opcode, push_len}
use solenoid.Decoder.{
  Instruction, decode, decode_at, decode_step, decode_loop, push_argument, resolve_jump,
}
use solenoid.Decoder.Jumps.{IsTarget, resolve_jump_complete}
use solenoid.Decoder.Starts.{IsStart, resolve_jump_sound}
use solenoid.Primitives.Bytes.Bounds.{are_bytes-AreBytes}
use solenoid.Tests.Data.{jumping}

abbrev landing : Instruction
landing = record { opcode = opcode 0x5b "JUMPDEST" 0; offset = 4; argument = none }

abbrev opening : Instruction
opening = record {
  opcode = opcode 0x60 "PUSH_" 1;
  offset = 0;
  argument = some (push_argument jumping 1 1);
}

landing_there : get_elem? (decode jumping).instructions 3 ≡ some landing
unfolding decode decode_loop decode_step decode_at push_argument get_opcode push_len
landing_there = refl

opening_there : get_elem? (decode jumping).instructions 0 ≡ some opening
unfolding decode decode_loop decode_step decode_at push_argument get_opcode push_len
opening_there = refl

found : resolve_jump (decode jumping) 4 ≡ some 3
unfolding decode decode_loop decode_step decode_at push_argument get_opcode push_len resolve_jump
found = refl

resolve_jump_sound_example :
    IsTarget (decode jumping).instructions 4 3 × IsStart jumping 4 × (get_or jumping 4 0 ≡ 0x5b)
resolve_jump_sound_example =
    resolve_jump_sound jumping (are_bytes-AreBytes jumping refl) 4 3 (λ e. ground arith) found

resolve_jump_complete_example : resolve_jump (decode jumping) 4 ≡ some 3
resolve_jump_complete_example =
    resolve_jump_complete jumping 3 landing landing_there refl (λ e. ground arith)
