-- ===== src/Hex.antt =====
-- Hexadecimal strings: `decode` of evm-common/src/lib.rs, `addr` of evm-common/src/address.rs and
-- `word` of evm-common/src/word.rs. A string is the list of its bytes; `none` is a panic.
pub mod Printed
use solenoid.Base.{
  ℕ, zero, suc, ◌+◌, ◌-◌, ◌*◌, ◌%◌, Bool, true, false, ◌&&◌, Option, none, some, List, [], ◌∷◌,
  length, get_elem?, set, replicate, leb, ltb, ◌==◌, if◌then◌else◌,
}
use solenoid.Primitives.Bytes.{be_value}
use solenoid.Word.{Word}
use solenoid.Types.{Address}

-- The value of the digit that a character is.
unfoldable pub hex_digit : ℕ → Option ℕ
hex_digit chr =
    if leb 48 chr && leb chr 57
    then some (chr - 48)
    else if leb 97 chr && leb chr 102
    then some (chr - 97 + 10)
    else if leb 65 chr && leb chr 70
    then some (chr - 65 + 10)
    else none

-- The bytes, and the index of the byte behind the one that the next digit goes to.
abbrev pub Bytes : Type 0
Bytes = List ℕ × ℕ

-- A digit goes to the lower half of a byte, or to its upper half, which completes the byte.
unfoldable pub put_digit : Bool → ℕ → Bytes → Option Bytes
put_digit lower chr (bytes, zero) = none
put_digit true chr (bytes, suc i) = some (set bytes i chr, suc i)
put_digit false chr (bytes, suc i) = elim (get_elem? bytes i) [
  | none ↦ none
  | some byte ↦ some (set bytes i ((byte + chr * 16 % 256) % 256), i)
]

-- The rounds from the index `chr_idx` down to `skip`.
unfoldable pub digits_loop : List ℕ → ℕ → ℕ → ℕ → Bytes → Option (List ℕ)
digits_loop chars skip parity zero done = some done.0
digits_loop chars skip parity (suc i) done =
    if leb (suc i) skip then some done.0 else elim (get_elem? chars i) [
      | none ↦ none
      | some code ↦ elim (hex_digit code) [
        | none ↦ none
        | some chr ↦ elim (put_digit (suc i % 2 == parity) chr done) [
          | none ↦ none
          | some next ↦ digits_loop chars skip parity i next
        ]
      ]
    ]

-- The length of the prefix `0x`, if the string has it.
unfoldable pub prefix_len : List ℕ → ℕ
prefix_len [] = 0
prefix_len (c ∷ []) = 0
prefix_len (c ∷ d ∷ chars) = if c == 48 && d == 120 then 2 else 0

unfoldable pub decode : ℕ → List ℕ → Option (List ℕ)
unfolding digits_loop
decode n [] = some (replicate n 0)
decode n (c ∷ rest) =
    let chars = c ∷ rest in
    let skip = prefix_len chars in
    if ltb (n * 2) (length chars - skip)
    then none
    else digits_loop chars skip (length chars % 2) (length chars) (replicate n 0, n)

abbrev pub value_of : Option (List ℕ) → Option ℕ
value_of none = none
value_of (some bytes) = some (be_value bytes)

unfoldable pub addr : List ℕ → Option Address
unfolding decode
addr s = value_of (decode 20 s)

unfoldable pub word : List ℕ → Option Word
unfolding decode
word s = value_of (decode 32 s)
