-- ===== src/Decoder.antt =====
-- src/decoder.rs: the instructions of a bytecode and its table of jump targets.
mod Find
pub mod Jumps
pub mod Starts
pub mod Loop
use mathlib.Core.Option
use Prim.Native.String.{String}
use text.Mathlib.Text.{◌==◌ as str_eq}
use solenoid.Base.{
  ℕ, zero, suc, ◌+◌, ◌-◌, ◌||◌, Bool, Option, none, some, List, [], ◌∷◌, ◌++◌, min, length, take,
  drop, resize, get_or, get_elem?, ltb, ◌==◌, if◌then◌else◌,
}
use solenoid.Opcodes.{Opcode, get_opcode, push_len}

pub record Instruction : Type 0 where
  pub opcode : Opcode
  pub offset : ℕ
  pub argument : Option (List ℕ)

unfoldable pub is_call : Instruction → Bool
is_call i =
    str_eq i.opcode.name "CALL"
    || str_eq i.opcode.name "DELEGATECALL"
    || str_eq i.opcode.name "STATICCALL"
    || str_eq i.opcode.name "CALLCODE"
    || str_eq i.opcode.name "CREATE"
    || str_eq i.opcode.name "CREATE2"

pub record Bytecode : Type 0 where
  pub bytecode : List ℕ
  pub instructions : List Instruction
  pub jumptable : List (ℕ × ℕ)

-- `binary_search_by_key`: the index of the entry with this key. On a table with strictly rising
-- keys, which `decode` builds, it is the one index that the standard library's contract allows.
binary_search_by_key : ℕ → List (ℕ × ℕ) → Option ℕ
binary_search_by_key key [] = none
binary_search_by_key key ((k, _) ∷ table) =
    if k == key then some 0 else Option.map suc (binary_search_by_key key table)

unfoldable pub resolve_jump : Bytecode → ℕ → Option ℕ
unfolding binary_search_by_key
resolve_jump code offset =
    if offset == 0 then some 0 else elim (binary_search_by_key offset code.jumptable) [
      | none ↦ none
      | some index ↦ Option.map (λ (e : ℕ × ℕ). e.1) (get_elem? code.jumptable index)
    ]

-- The variables of the loop in `decode`.
pub record Decoding : Type 0 where
  pub instructions : List Instruction
  pub jumptable : List (ℕ × ℕ)
  pub pos : ℕ

-- The argument of a push at `from`: the bytes that are there, filled up with zeros.
unfoldable pub push_argument : List ℕ → ℕ → ℕ → List ℕ
push_argument bytecode from len =
    let till = min (from + len) (length bytecode) in
    resize len 0 (take (till - from) (drop from bytecode))

-- The instruction that stands at `pos`.
unfoldable pub decode_at : List ℕ → ℕ → Instruction
decode_at bytecode pos =
    let op = get_opcode (get_or bytecode pos 0) in
    let len = push_len op in
    record {
      opcode = op;
      offset = pos;
      argument = if ltb 0 len then some (push_argument bytecode (pos + 1) len) else none;
    }

-- One round of the loop: the instruction at `pos`.
unfoldable pub decode_step : List ℕ → Decoding → Decoding
decode_step bytecode s =
    let instruction = decode_at bytecode s.pos in
    let len = push_len instruction.opcode in
    record {
      instructions = s.instructions ++ instruction ∷ [];
      jumptable =
          if instruction.opcode.code == 0x5b
          then s.jumptable ++ (s.pos, length s.instructions) ∷ []
          else s.jumptable;
      pos = if ltb 0 len then min (s.pos + 1 + len) (length bytecode) else s.pos + 1;
    }

-- `while pos < bytecode.len()`, with fuel; every round passes at least one byte.
unfoldable pub decode_loop : ℕ → List ℕ → Decoding → Decoding
decode_loop zero bytecode s = s
decode_loop (suc fuel) bytecode s =
    let rest = decode_loop fuel bytecode (decode_step bytecode s) in
    if ltb s.pos (length bytecode) then rest else s

abbrev pub start : Decoding
start = record { instructions = []; jumptable = []; pos = 0 }

unfoldable pub decode : List ℕ → Bytecode
unfolding decode_loop decode_step decode_at push_argument
decode bytecode =
    let done = decode_loop (length bytecode) bytecode start in
    record { bytecode = bytecode; instructions = done.instructions; jumptable = done.jumptable }
