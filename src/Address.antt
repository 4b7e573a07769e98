-- ===== src/Address.antt =====
-- evm-common/src/address.rs: the addresses of created contracts.
pub mod Payload
use solenoid.Base.{
  ℕ, ◌+◌, Bool, List, [], ◌∷◌, ◌++◌, length, drop, get_or, ltb, ◌==◌, ◌&&◌, ◌||◌, if◌then◌else◌,
}
use solenoid.Primitives.{Primitives}
use solenoid.Primitives.Bytes.{be_value, be_bytes}
use solenoid.Word.{Word, into_bytes, from_bytes}
use solenoid.Types.{Address, address_of_word}

-- `skip_while(|byte| byte == &0)`
unfoldable pub skip_zeros : List ℕ → List ℕ
skip_zeros [] = []
skip_zeros (b ∷ bytes) = if b == 0 then skip_zeros bytes else b ∷ bytes

-- One byte that is its own encoding.
abbrev pub is_small : List ℕ → Bool
is_small bytes = length bytes == 1 && ltb (get_or bytes 0 0) 0x80

-- `nonce_encoding_len`, and the bytes that encode the nonce.
unfoldable pub nonce_encoding_len : List ℕ → ℕ
nonce_encoding_len bytes = if length bytes == 0 || is_small bytes then 1 else 1 + length bytes

unfoldable pub nonce_encoding : List ℕ → List ℕ
nonce_encoding bytes =
    if length bytes == 0
    then 0x80 ∷ []
    else if is_small bytes
    then get_or bytes 0 0 ∷ []
    else (0x80 + length bytes) ∷ bytes

-- The RLP list of an address and the bytes of a nonce: 21 bytes are the address and its prefix.
unfoldable pub creation_payload : Address → List ℕ → List ℕ
unfolding nonce_encoding_len nonce_encoding
creation_payload a bytes =
    (0xc0 + (21 + nonce_encoding_len bytes)) ∷ (0x80 + 20) ∷ (be_bytes 20 a ++ nonce_encoding bytes)

module _ ⦃prim : Primitives⦄ where
  unfoldable pub create : Address → Word → Address
  unfolding creation_payload skip_zeros
  create a nonce =
      be_value (drop 12 (prim.keccak (creation_payload a (skip_zeros (into_bytes nonce)))))

  unfoldable pub create2 : Address → Word → List ℕ → Address
  create2 a salt code =
      let buffer = 0xff ∷ (be_bytes 20 a ++ (into_bytes salt ++ prim.keccak code)) in
      address_of_word (from_bytes (prim.keccak buffer))
