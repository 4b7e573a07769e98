-- ===== src/Decoder/Starts.antt =====
-- Where the instructions of a bytecode start, and that src/decoder.rs finds them there.
use solenoid.Base.{
  ℕ, zero, suc, ◌+◌, ◌-◌, ◌<◌, ◌≡◌, ◌≢◌, refl, ap, sym, subst, Bool, true, false, Option, ◌∙◌, some,
  List, [], ◌∷◌, arith, length, get_elem?, get_or, leb, ◌==◌, ◌&&◌, if◌then◌else◌,
}
use mathlib.Core.Option
use solenoid.Primitives.Bytes.Bounds.{AreBytes}
use solenoid.Opcodes.{get_opcode, push_len}
use solenoid.Opcodes.Table.{push_len-get_opcode, get_opcode-jumpdest}
use solenoid.Decoder.{
  Instruction, Decoding, decode_at, decode_step, decode_loop, start, decode, resolve_jump,
}
use solenoid.Decoder.Find.{get_elem?-append_one}
use solenoid.Decoder.Loop.{decode_loop_inv}
use solenoid.Decoder.Jumps.{IsTarget, resolve_jump-IsTarget}

-- The bytes of the argument behind a byte.
abbrev operand : ℕ → ℕ
operand v = if leb 0x60 v && leb v 0x7f then v - 0x5f else 0

-- An instruction starts at the front, and behind the argument of another one.
pub data IsStart (bytecode : List ℕ) : ℕ → Type 0 where
  front : IsStart bytecode 0
  next :
      (p : ℕ)
      → IsStart bytecode p
      → p < length bytecode
      → IsStart bytecode (p + 1 + operand (get_or bytecode p 0))

-- What holds of a decoded instruction.
record IsPlaced (bytecode : List ℕ) (i : Instruction) : Type 0 where
  starts : IsStart bytecode i.offset
  within : i.offset < length bytecode
  decoded : i.opcode ≡ get_opcode (get_or bytecode i.offset 0)

record IsAligned (bytecode : List ℕ) (s : Decoding) : Type 0 where
  here : s.pos < length bytecode → IsStart bytecode s.pos
  placed : (n : ℕ) (i : Instruction) → get_elem? s.instructions n ≡ some i → IsPlaced bytecode i

either-IsPlaced :
    {bytecode : List ℕ} {old : Option Instruction} {new i : Instruction} (b : Bool)
    → IsPlaced bytecode new
    → (if b then some new else old) ≡ some i
    → (old ≡ some i → IsPlaced bytecode i)
    → IsPlaced bytecode i
either-IsPlaced {bytecode} {new = new} true h e k =
    subst (IsPlaced bytecode) (ap (λ o. Option.get_or o new) e) h
either-IsPlaced false h e k = k e

get_or_byte : (l : List ℕ) (n : ℕ) → AreBytes l → get_or l n 0 < 256
get_or_byte [] n h = omega arith
get_or_byte (b ∷ l) zero (hb, h) = hb
get_or_byte (b ∷ l) (suc n) (hb, h) = get_or_byte l n h

module _ (bytecode : List ℕ) (bytes : AreBytes bytecode) where
  push_len-operand :
      (p : ℕ) → push_len (get_opcode (get_or bytecode p 0)) ≡ operand (get_or bytecode p 0)
  push_len-operand p =
      push_len-get_opcode (get_or bytecode p 0) (get_or_byte bytecode p bytes) ∙ ground arith

  step-IsAligned :
      (s : Decoding)
      → s.pos < length bytecode
      → IsAligned bytecode s
      → IsAligned bytecode (decode_step bytecode s)
  unfolding decode_step decode_at
  step-IsAligned s more h =
      let size = push_len-operand s.pos in
      let behind = IsStart.next s.pos (h.here more) more in
      let new : IsPlaced bytecode (decode_at bytecode s.pos) = record {
        starts = h.here more;
        within = more;
        decoded = refl;
      } in
      record {
        here = λ left. subst (IsStart bytecode) (ground (arith, size, left)) behind;
        placed = λ n i e.
            either-IsPlaced (n == length s.instructions) new
              (sym (get_elem?-append_one s.instructions (decode_at bytecode s.pos) n) ∙ e)
              (h.placed n i);
      }

  decode-IsAligned : IsAligned bytecode (decode_loop (length bytecode) bytecode start)
  decode-IsAligned =
      decode_loop_inv (IsAligned bytecode) bytecode step-IsAligned (length bytecode) start
        (record { here = λ h. IsStart.front; placed = λ n i e. cc })

  -- In a bytecode, a list of bytes, a jump to an offset other than 0 is resolved only to a JUMPDEST instruction that was decoded at
  -- this offset, and there an instruction starts whose byte is 0x5b: it does not lie in the
  -- argument of a push.
  pub resolve_jump_sound :
      (offset index : ℕ)
      → offset ≢ 0
      → resolve_jump (decode bytecode) offset ≡ some index
      → IsTarget (decode bytecode).instructions offset index
        × IsStart bytecode offset
        × (get_or bytecode offset 0 ≡ 0x5b)
  unfolding decode
  resolve_jump_sound offset index apart e =
      let (i, there, o, c) = resolve_jump-IsTarget bytecode offset index apart e in
      let placed = decode-IsAligned.placed index i there in
      let byte : (get_opcode (get_or bytecode i.offset 0)).code ≡ 0x5b =
        ap (λ op. op.code) (sym placed.decoded) ∙ c in
      (
        (i, there, o, c),
        subst (IsStart bytecode) o placed.starts,
        ap (λ p. get_or bytecode p 0) (sym o)
            ∙ get_opcode-jumpdest (get_or bytecode i.offset 0) (get_or_byte bytecode i.offset bytes)
                byte,
      )
