-- ===== src/RpcProxy/Encoding.antt =====
-- The keys and the values of rpc-proxy/src/cache.rs. A string is the list of its bytes, all of them
-- ASCII.
pub mod Exact
use solenoid.Base.{
  ℕ, zero, suc, ◌+◌, ◌-◌, ◌*◌, ◌%◌, Option, none, some, List, [], ◌∷◌, ◌++◌, map, length, take,
  replicate, ltb, leb, ◌==◌, ◌&&◌, if◌then◌else◌,
}
use solenoid.RpcProxy.Crates.{HexCrate}

-- `trim_start_matches("0x")`, which takes away every such prefix.
unfoldable pub trim_0x : List ℕ → List ℕ
trim_0x [] = []
trim_0x (c ∷ []) = c ∷ []
trim_0x (c ∷ d ∷ rest) =
    let trimmed = trim_0x rest in if c == 48 && d == 120 then trimmed else c ∷ d ∷ rest

-- `trim_start_matches('0')`
unfoldable pub trim_zeros : List ℕ → List ℕ
trim_zeros [] = []
trim_zeros (c ∷ rest) = let trimmed = trim_zeros rest in if c == 48 then trimmed else c ∷ rest

-- `to_lowercase`
unfoldable pub lower : ℕ → ℕ
lower c = if leb 65 c && leb c 90 then c + 32 else c

unfoldable pub normalize_hex : List ℕ → List ℕ
unfolding trim_0x lower
normalize_hex s = map lower (trim_0x s)

-- `format!("{:0>width$}", s)`
abbrev pub pad_zeros : ℕ → List ℕ → List ℕ
pad_zeros width s = replicate (width - length s) 48 ++ s

module _ ⦃hex : HexCrate⦄ where
  unfoldable pub decode_hex_padded : ℕ → List ℕ → List ℕ
  unfolding trim_0x
  decode_hex_padded n s =
      hex.decode_to_slice (take (n * 2) (pad_zeros (n * 2) (trim_0x s))) (replicate n 0)

  unfoldable pub storage_key : List ℕ → List ℕ → List ℕ
  unfolding decode_hex_padded
  storage_key slot block = decode_hex_padded 32 slot ++ decode_hex_padded 8 block

  unfoldable pub address_block_key : List ℕ → List ℕ → List ℕ
  unfolding decode_hex_padded
  address_block_key address block = decode_hex_padded 20 address ++ decode_hex_padded 8 block

  -- An invalid string gives the byte 0.
  unfoldable pub decode_hex_compact : List ℕ → List ℕ
  unfolding trim_0x
  decode_hex_compact s =
      let clean = trim_0x s in
      if length clean == 0
      then 0 ∷ []
      else elim (hex.decode (if length clean % 2 == 0 then clean else 48 ∷ clean)) [
        | none ↦ 0 ∷ []
        | some bytes ↦ bytes
      ]

  unfoldable pub encode_quantity : List ℕ → List ℕ
  unfolding trim_zeros
  encode_quantity bytes =
      let trimmed = trim_zeros (hex.encode bytes) in
      if length trimmed == 0 then 48 ∷ 120 ∷ 48 ∷ [] else 48 ∷ 120 ∷ trimmed

  unfoldable pub encode_data32 : List ℕ → List ℕ
  encode_data32 bytes = 48 ∷ 120 ∷ pad_zeros 64 (hex.encode bytes)
