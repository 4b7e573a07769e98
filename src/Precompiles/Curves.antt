-- ===== src/Precompiles/Curves.antt =====
-- src/precompiles.rs: the operations on BN254 and the point evaluation on BLS12-381.
use mathlib.Core.Option
use solenoid.Base.{
  ℕ, zero, suc, ◌+◌, ◌/◌, ◌%◌, Bool, Option, none, some, List, [], ◌∷◌, ◌++◌, length, resize, ltb,
  ◌==◌, ◌&&◌, not, if◌then◌else◌,
}
use solenoid.Primitives.Bytes.{be_value, be_bytes}
use solenoid.Outcome.{Outcome, ok, err, or_panic, precompile_failed}
use solenoid.Precompiles.Interface.{Crates, G1, G2, Point}
use solenoid.Precompiles.Hashes.{part, pad_left, zeros, word_bytes}

-- Input that is too short is filled up with zeros, and longer input stays.
abbrev filled : ℕ → List ℕ → List ℕ
filled n input = if ltb (length input) n then resize n 0 input else input

module _ ⦃crates : Crates⦄ where
  -- `bytes_to_fq` and `bytes_to_fr` of the minimal bytes of a number that was read from 32 bytes.
  unfoldable pub bytes_to_fq : List ℕ → ℕ
  bytes_to_fq bytes = crates.fq (pad_left 32 bytes)

  unfoldable pub bytes_to_fr : List ℕ → ℕ
  bytes_to_fr bytes = crates.fr (pad_left 32 bytes)

  abbrev field_at : ℕ → List ℕ → ℕ
  field_at from input = bytes_to_fq (crates.to_bytes_be (be_value (part from (from + 32) input)))

  unfoldable pub fq_to_bytes : ℕ → List ℕ
  fq_to_bytes x = pad_left 32 (crates.fq_bytes x)

  -- The point at an offset: zero coordinates are the point at infinity, and `none` is the panic of
  -- coordinates off the curve.
  unfoldable pub g1_at : ℕ → List ℕ → Option G1
  unfolding bytes_to_fq
  g1_at from input =
      if be_value (part from (from + 32) input) == 0
        && be_value (part (from + 32) (from + 64) input) == 0
      then some none
      else Option.map some (crates.g1_new (field_at from input) (field_at (from + 32) input))

  unfoldable pub g1_output : G1 → List ℕ
  unfolding fq_to_bytes
  g1_output none = zeros 64
  g1_output (some (x, y)) = fq_to_bytes x ++ fq_to_bytes y

  unfoldable pub bn128_add : List ℕ → Outcome (List ℕ)
  unfolding g1_at g1_output
  bn128_add input =
      let full = filled 128 input in
      or_panic (
        Option.bind (g1_at 0 full)
          λ p1. Option.map (λ p2. g1_output (crates.g1_add p1 p2)) (g1_at 64 full))

  unfoldable pub bn128_mul : List ℕ → Outcome (List ℕ)
  unfolding g1_at g1_output bytes_to_fr
  bn128_mul input =
      let full = filled 96 input in
      let scalar = bytes_to_fr (crates.to_bytes_be (be_value (part 64 96 full))) in
      or_panic (Option.map (λ p. g1_output (crates.g1_mul p scalar)) (g1_at 0 full))

  -- The imaginary coefficient of a coordinate stands before the real one.
  unfoldable pub g2_at : ℕ → List ℕ → Option G2
  unfolding bytes_to_fq
  g2_at from input =
      if be_value (part from (from + 32) input) == 0
        && be_value (part (from + 32) (from + 64) input) == 0
        && be_value (part (from + 64) (from + 96) input) == 0
        && be_value (part (from + 96) (from + 128) input) == 0
      then some none
      else Option.map some (
          crates.g2_new (field_at (from + 32) input, field_at from input)
            (field_at (from + 96) input, field_at (from + 64) input))

  -- The loop over the pairs, `n` of them from an offset on.
  unfoldable pub pairs_from : ℕ → ℕ → List ℕ → Option (List (G1 × G2))
  unfolding g1_at g2_at
  pairs_from zero offset input = some []
  pairs_from (suc n) offset input = Option.bind (g1_at offset input) λ p.
      Option.bind (g2_at (offset + 64) input) λ q.
        Option.map (λ (rest : List (G1 × G2)). (p, q) ∷ rest) (pairs_from n (offset + 192) input)

  check_pairs : List (G1 × G2) → List ℕ
  check_pairs [] = word_bytes 1
  check_pairs (p ∷ ps) = if crates.pairing_is_zero (p ∷ ps) then word_bytes 1 else zeros 32

  unfoldable pub bn128_pairing : List ℕ → Outcome (List ℕ)
  unfolding pairs_from check_pairs
  bn128_pairing input =
      if not (length input % 192 == 0)
      then err precompile_failed
      else or_panic (Option.map check_pairs (pairs_from (length input / 192) 0 input))

  -- `get_tau_g2_trusted_setup`: the generator.
  abbrev get_tau_g2_trusted_setup : Point
  get_tau_g2_trusted_setup = crates.bls_g2_generator

  unfoldable pub verify_kzg_proof : List ℕ → List ℕ → List ℕ → List ℕ → Option Bool
  verify_kzg_proof commitment z y proof =
      Option.bind (crates.bls_g1_deserialize commitment) λ commitment_point.
        Option.map
          (λ (proof_point : Point).
            let y_g1 = crates.bls_g1_mul crates.bls_g1_generator (crates.bls_fr y) in
            let z_g2 = crates.bls_g2_mul crates.bls_g2_generator (crates.bls_fr z) in
            let commitment_minus_y = crates.bls_g1_sub commitment_point y_g1 in
            let tau_minus_z_g2 = crates.bls_g2_sub get_tau_g2_trusted_setup z_g2 in
            crates.bls_pairing proof_point tau_minus_z_g2
            == crates.bls_pairing commitment_minus_y crates.bls_g2_generator)
          (crates.bls_g1_deserialize proof)

  -- The number of field elements, and the modulus of the field.
  abbrev kzg_output : List ℕ
  kzg_output =
      be_bytes 32 0x1000
      ++ be_bytes 32 0x73eda753299d7d483339d80809a1d80553bda402fffe5bfeffffffff00000001

  kzg_result : Option Bool → Outcome (List ℕ)
  kzg_result none = err precompile_failed
  kzg_result (some valid) = if valid then ok kzg_output else err precompile_failed

  unfoldable pub kzg_point_evaluation : List ℕ → Outcome (List ℕ)
  unfolding verify_kzg_proof kzg_result
  kzg_point_evaluation input =
      if not (length input == 192)
      then err precompile_failed
      else kzg_result (
          verify_kzg_proof (part 96 144 input) (part 32 64 input) (part 64 96 input)
            (part 144 192 input))
