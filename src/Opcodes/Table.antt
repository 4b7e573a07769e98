-- ===== src/Opcodes/Table.antt =====
-- Facts about every entry of the opcode table, by evaluation of all 256 of them.
use text.Mathlib.Text.{◌==◌ as str_eq}
use solenoid.Base.{
  ℕ, zero, suc, ◌-◌, ◌<◌, ◌≡◌, refl, Bool, true, ◌&&◌, ◌||◌, not, Bool-cases, inl, inr, arith, ltb,
  leb, ◌==◌, ==_iff, if◌then◌else◌,
}
use solenoid.Opcodes.{get_opcode, push_len}

-- A test that passes for all bytes below `top`.
passes : (ℕ → Bool) → (top : ℕ) → Bool
passes test zero = true
passes test (suc top) = passes test top && test top

passes_for : (test : ℕ → Bool) (top v : ℕ) → v < top → passes test top ≡ true → test v ≡ true
unfolding passes
passes_for test zero v h e = absurd (omega arith)
passes_for test (suc top) v h e = elim (Bool-cases (v == top)) [
  | inl last ↦ ground arith
  | inr other ↦ passes_for test top v (ground arith) (ground arith)
]

-- The argument length by the byte alone.
abbrev pub push_size : ℕ → ℕ
push_size value = if leb 0x60 value && ltb value 0x80 then value - 0x5f else 0

push_table : passes (λ v. push_len (get_opcode v) == push_size v) 256 ≡ true
unfolding passes push_len get_opcode
push_table = refl

-- PUSH1 to PUSH32, and no other byte, take an argument, of 1 to 32 bytes.
pub push_len-get_opcode : (v : ℕ) → v < 256 → push_len (get_opcode v) ≡ push_size v
push_len-get_opcode v h =
    (==_iff _ _).0 (passes_for (λ v. push_len (get_opcode v) == push_size v) 256 v h push_table)

covered : ℕ → Bool
covered v =
    let op = get_opcode v in
    op.code == v && not (str_eq op.name "undefined")
    || op.code == 0xfe && str_eq op.name "undefined"

covered_table : passes covered 256 ≡ true
unfolding passes covered get_opcode
covered_table = refl

-- A byte is decoded to its own opcode, with a name, or to 0xfe without one.
pub get_opcode_covered :
    (v : ℕ)
    → v < 256
    → ((get_opcode v).code == v && not (str_eq (get_opcode v).name "undefined")
        || (get_opcode v).code == 0xfe && str_eq (get_opcode v).name "undefined")
      ≡ true
unfolding covered
get_opcode_covered v h = passes_for covered 256 v h covered_table

jumpdest_table : passes (λ v. not ((get_opcode v).code == 0x5b) || v == 0x5b) 256 ≡ true
unfolding passes get_opcode
jumpdest_table = refl

-- Only the byte 0x5b is decoded to JUMPDEST.
pub get_opcode-jumpdest : (v : ℕ) → v < 256 → (get_opcode v).code ≡ 0x5b → v ≡ 0x5b
get_opcode-jumpdest v h e =
    ground (
      arith,
      passes_for (λ v. not ((get_opcode v).code == 0x5b) || v == 0x5b) 256 v h jumpdest_table,
    )
