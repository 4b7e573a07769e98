-- ===== src/RpcProxy/Encoding/Exact.antt =====
-- The values of rpc-proxy/src/cache.rs are read back as they were written.
use solenoid.Base.{
  ℕ, zero, suc, ◌-◌, ◌*◌, ◌%◌, ◌<◌, ◌≡◌, refl, ap, sym, ◌∙◌, false, List, [], ◌∷◌, length, take,
  replicate, length-replicate, ◌==◌, arith,
}
use solenoid.Primitives.Bytes.Bounds.{AreBytes}
use solenoid.Hex.Printed.{digits, printed, digit_char}
use solenoid.RpcProxy.Crates.{HexCrate}
use solenoid.RpcProxy.Encoding.{trim_0x, pad_zeros, decode_hex_padded, encode_data32}

no_prefix : (d : ℕ) → d < 16 → (digit_char d == 120) ≡ false
unfolding digit_char
no_prefix d h = ground arith

trim_0x-digits : (bytes : List ℕ) → AreBytes bytes → trim_0x (digits bytes) ≡ digits bytes
unfolding trim_0x
trim_0x-digits [] h = refl
trim_0x-digits (b ∷ bytes) h = ground (arith, no_prefix (b % 16) (omega arith))

take_all : (n : ℕ) (l : List ℕ) → length l ≡ n → take n l ≡ l
take_all zero [] e = refl
take_all zero (x ∷ l) e = absurd (omega (arith, e))
take_all (suc n) [] e = absurd (omega (arith, e))
take_all (suc n) (x ∷ l) e = ap (λ t. x ∷ t) (take_all n l (omega (arith, e)))

pad_zeros_full : (n : ℕ) (l : List ℕ) → length l ≡ n → pad_zeros n l ≡ l
pad_zeros_full n l e =
    let none_missing : n - length l ≡ 0 = omega (arith, e) in rw none_missing refl

length-digits : (bytes : List ℕ) → length (digits bytes) ≡ length bytes * 2
length-digits [] = refl
length-digits (b ∷ bytes) = omega (arith, length-digits bytes)

module _ ⦃hex : HexCrate⦄ where
  -- As many bytes as there are to be, printed with two digits for each.
  pub decode_hex_padded-printed :
      (n : ℕ) (bytes : List ℕ)
      → AreBytes bytes
      → length bytes ≡ n
      → decode_hex_padded n (printed bytes) ≡ bytes
  unfolding decode_hex_padded trim_0x
  decode_hex_padded-printed n bytes h e =
      let size : length (digits bytes) ≡ n * 2 = omega (arith, length-digits bytes, e) in
      ap (λ (l : List ℕ). hex.decode_to_slice (take (n * 2) (pad_zeros (n * 2) l)) (replicate n 0))
        (trim_0x-digits bytes h)
      ∙ ap (λ (l : List ℕ). hex.decode_to_slice (take (n * 2) l) (replicate n 0))
          (pad_zeros_full (n * 2) (digits bytes) size)
      ∙ ap (λ (l : List ℕ). hex.decode_to_slice l (replicate n 0))
          (take_all (n * 2) (digits bytes) size)
      ∙ hex.decode_to_slice_law bytes (replicate n 0) h (length-replicate n 0 ∙ sym e)

  pub encode_data32_lem :
      (bytes : List ℕ) → AreBytes bytes → length bytes ≡ 32 → encode_data32 bytes ≡ printed bytes
  unfolding encode_data32
  encode_data32_lem bytes h e =
      ap (λ (l : List ℕ). 48 ∷ 120 ∷ pad_zeros 64 l) (hex.encode_law bytes h)
      ∙ ap (λ (l : List ℕ). 48 ∷ 120 ∷ l)
          (pad_zeros_full 64 (digits bytes) (omega (arith, length-digits bytes, e)))
