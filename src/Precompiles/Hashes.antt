-- ===== src/Precompiles/Hashes.antt =====
-- src/precompiles.rs: signature recovery, the hash functions, the identity and P256VERIFY.
use solenoid.Base.{
  ℕ, ◌-◌, Option, none, some, List, [], ◌∷◌, ◌++◌, length, take, drop, get_or, replicate, ltb, ◌==◌,
  ◌||◌, not, if◌then◌else◌,
}
use solenoid.Primitives.{Primitives}
use solenoid.Primitives.Bytes.{be_value}
use solenoid.Outcome.{Outcome, ok, err, panic, precompile_failed}
use solenoid.Precompiles.Interface.{Crates}

-- `input[from..till]` of a range that the input is known to hold.
abbrev pub part : ℕ → ℕ → List ℕ → List ℕ
part from till input = take (till - from) (drop from input)

-- Zeros before the bytes, up to a length.
abbrev pub pad_left : ℕ → List ℕ → List ℕ
pad_left n bytes = replicate (n - length bytes) 0 ++ bytes

abbrev pub zeros : ℕ → List ℕ
zeros n = replicate n 0

-- `vec![0u8; 32]` with a last byte.
abbrev pub word_bytes : ℕ → List ℕ
word_bytes b = zeros 31 ++ b ∷ []

abbrev pub secp256k1_n : ℕ
secp256k1_n = 0xfffffffffffffffffffffffffffffffebaaedce6af48a03bbfd25e8cd0364141

abbrev pub secp256k1_n_half : ℕ
secp256k1_n_half = 0x7fffffffffffffffffffffffffffffff5d576e7357a4501ddfe92f46681b20a0

module _ ⦃prim : Primitives⦄ ⦃crates : Crates⦄ where
  -- The recovered key as an address, in a word.
  recovered : Option (List ℕ) → Outcome (List ℕ)
  recovered none = err precompile_failed
  recovered (some point) = ok (zeros 12 ++ drop 12 (prim.keccak (drop 1 point)))

  recover : List ℕ → List ℕ → ℕ → Outcome (List ℕ)
  unfolding recovered
  recover hash signature id =
      if crates.k256_accepts signature
      then recovered (crates.k256_recover hash signature id)
      else err precompile_failed

  -- A high `s` is replaced by `n - s`, the difference of num-bigint.
  unfoldable pub normalize : List ℕ → List ℕ → List ℕ → ℕ → Outcome (List ℕ)
  unfolding recover
  normalize hash r s id =
      if ltb secp256k1_n_half (be_value s)
      then elim (crates.biguint_sub secp256k1_n (be_value s)) [
        | none ↦ panic
        | some low ↦ recover hash (r ++ pad_left 32 (crates.to_bytes_be low)) (1 - id)
      ]
      else recover hash (r ++ s) id

  unfoldable pub ecrecover : List ℕ → Outcome (List ℕ)
  unfolding normalize
  ecrecover input =
      let v = get_or input 63 0 in
      if not (length input == 128) || not (v == 27 || v == 28)
      then ok (zeros 32)
      else normalize (part 0 32 input) (part 64 96 input) (part 96 128 input) (v - 27)

  unfoldable pub sha256 : List ℕ → Outcome (List ℕ)
  sha256 input = ok (crates.sha256 input)

  unfoldable pub ripemd160 : List ℕ → Outcome (List ℕ)
  ripemd160 input = ok (zeros 12 ++ crates.ripemd160 input)

  unfoldable pub p256verify : List ℕ → Outcome (List ℕ)
  p256verify input =
      if not (length input == 160)
      then ok []
      else let r = part 32 64 input in
        let s = part 64 96 input in
        let x = part 96 128 input in
        let y = part 128 160 input in
        if not (crates.p256_accepts r s) || not (crates.p256_on_curve x y)
        then ok []
        else if crates.p256_verify (part 0 32 input) r s x y
        then ok (word_bytes 1)
        else ok []

unfoldable pub identity : List ℕ → Outcome (List ℕ)
identity input = ok input
