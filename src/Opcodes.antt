-- ===== src/Opcodes.antt =====
-- src/opcodes.rs: the table of opcodes.
pub mod Table
use Prim.Native.String.{String}
use text.Mathlib.Text.{◌==◌ as str_eq}
use solenoid.Base.{
  ℕ, ◌+◌, ◌-◌, ◌&&◌, Bool, Option, none, some, List, [], ◌∷◌, ltb, leb, ◌==◌, if◌then◌else◌,
}

pub record Opcode : Type 0 where
  pub code : ℕ
  pub name : String
  pub n : ℕ

abbrev pub opcode : ℕ → String → ℕ → Opcode
opcode code name n = record { code = code; name = name; n = n }

-- The length of the argument: a name other than `PUSH_` takes none.
unfoldable pub push_len : Opcode → ℕ
push_len op = if str_eq op.name "PUSH_" then op.n else 0

-- The entries that `OPCODES` sets one by one.
entries : List (ℕ × String)
entries =
    (0x00, "STOP")
    ∷ (0x01, "ADD")
    ∷ (0x02, "MUL")
    ∷ (0x03, "SUB")
    ∷ (0x04, "DIV")
    ∷ (0x05, "SDIV")
    ∷ (0x06, "MOD")
    ∷ (0x07, "SMOD")
    ∷ (0x08, "ADDMOD")
    ∷ (0x09, "MULMOD")
    ∷ (0x0a, "EXP")
    ∷ (0x0b, "SIGNEXTEND")
    ∷ (0x10, "LT")
    ∷ (0x11, "GT")
    ∷ (0x12, "SLT")
    ∷ (0x13, "SGT")
    ∷ (0x14, "EQ")
    ∷ (0x15, "ISZERO")
    ∷ (0x16, "AND")
    ∷ (0x17, "OR")
    ∷ (0x18, "XOR")
    ∷ (0x19, "NOT")
    ∷ (0x1a, "BYTE")
    ∷ (0x1b, "SHL")
    ∷ (0x1c, "SHR")
    ∷ (0x1d, "SAR")
    ∷ (0x1e, "CLZ")
    ∷ (0x20, "SHA3")
    ∷ (0x30, "ADDRESS")
    ∷ (0x31, "BALANCE")
    ∷ (0x32, "ORIGIN")
    ∷ (0x33, "CALLER")
    ∷ (0x34, "CALLVALUE")
    ∷ (0x35, "CALLDATALOAD")
    ∷ (0x36, "CALLDATASIZE")
    ∷ (0x37, "CALLDATACOPY")
    ∷ (0x38, "CODESIZE")
    ∷ (0x39, "CODECOPY")
    ∷ (0x3a, "GASPRICE")
    ∷ (0x3b, "EXTCODESIZE")
    ∷ (0x3c, "EXTCODECOPY")
    ∷ (0x3d, "RETURNDATASIZE")
    ∷ (0x3e, "RETURNDATACOPY")
    ∷ (0x3f, "EXTCODEHASH")
    ∷ (0x40, "BLOCKHASH")
    ∷ (0x41, "COINBASE")
    ∷ (0x42, "TIMESTAMP")
    ∷ (0x43, "NUMBER")
    ∷ (0x44, "PREVRANDAO")
    ∷ (0x45, "GASLIMIT")
    ∷ (0x46, "CHAINID")
    ∷ (0x47, "SELFBALANCE")
    ∷ (0x48, "BASEFEE")
    ∷ (0x49, "BLOBHASH")
    ∷ (0x4a, "BLOBBASEFEE")
    ∷ (0x50, "POP")
    ∷ (0x51, "MLOAD")
    ∷ (0x52, "MSTORE")
    ∷ (0x53, "MSTORE8")
    ∷ (0x54, "SLOAD")
    ∷ (0x55, "SSTORE")
    ∷ (0x56, "JUMP")
    ∷ (0x57, "JUMPI")
    ∷ (0x58, "PC")
    ∷ (0x59, "MSIZE")
    ∷ (0x5a, "GAS")
    ∷ (0x5b, "JUMPDEST")
    ∷ (0x5c, "TLOAD")
    ∷ (0x5d, "TSTORE")
    ∷ (0x5e, "MCOPY")
    ∷ (0x5f, "PUSH0")
    ∷ (0xf0, "CREATE")
    ∷ (0xf1, "CALL")
    ∷ (0xf2, "CALLCODE")
    ∷ (0xf3, "RETURN")
    ∷ (0xf4, "DELEGATECALL")
    ∷ (0xf5, "CREATE2")
    ∷ (0xfa, "STATICCALL")
    ∷ (0xfd, "REVERT")
    ∷ (0xfe, "INVALID")
    ∷ (0xff, "SELFDESTRUCT")
    ∷ []

entry : ℕ → List (ℕ × String) → Option String
entry value [] = none
entry value ((code, name) ∷ rest) = if code == value then some name else entry value rest

-- The entries that `OPCODES` sets by its loops over `PUSH`, `DUP`, `SWAP` and `LOG`; every other
-- entry keeps the value that the table starts with.
numbered : ℕ → Opcode
numbered value =
    if leb 0x60 value && ltb value 0x80
    then opcode value "PUSH_" (value - 0x60 + 1)
    else if leb 0x80 value && ltb value 0x90
    then opcode value "DUP_" (value - 0x80 + 1)
    else if leb 0x90 value && ltb value 0xa0
    then opcode value "SWAP_" (value - 0x90 + 1)
    else if leb 0xa0 value && ltb value 0xa5
    then opcode value "LOG_" (value - 0xa0)
    else opcode 0xfe "undefined" 0

unfoldable pub get_opcode : ℕ → Opcode
unfolding entries entry numbered
get_opcode value = elim (entry value entries) [
  | some name ↦ opcode value name 0
  | none ↦ numbered value
]
