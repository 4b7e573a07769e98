-- ===== src/Precompiles/Blake/Sizes.antt =====
-- BLAKE2F of src/precompiles.rs: which inputs it takes, and how long its output is.
use solenoid.Base.{
  ℕ, zero, suc, ◌+◌, ◌*◌, ◌≡◌, ◌≢◌, refl, ap, ◌∙◌, Bool, Bool-cases, ◌⊎◌, inl, inr, get_or, List,
  [], ◌∷◌, length, length-append, ◌==◌, not, arith,
}
use solenoid.Outcome.{ok, err, precompile_failed}
use solenoid.Precompiles.Blake.{
  fold_state, blake2f_compression, words_from, words_bytes, le_bytes, le_value, blake2f,
}
use solenoid.Precompiles.Hashes.{part}
use solenoid.Primitives.Bytes.{be_value}

length-words_from : (n start : ℕ) (input : List ℕ) → length (words_from n start input) ≡ n
unfolding words_from
length-words_from zero start input = refl
length-words_from (suc n) start input = ap suc (length-words_from n (start + 8) input)

length-fold_state : (v h : List ℕ) (i : ℕ) → length (fold_state v h i) ≡ length h
unfolding fold_state
length-fold_state v [] i = refl
length-fold_state v (x ∷ h) i = ap suc (length-fold_state v h (i + 1))

length-words_bytes : (ws : List ℕ) → length (words_bytes ws) ≡ 8 * length ws
unfolding words_bytes
length-words_bytes [] = refl
length-words_bytes (w ∷ ws) =
    omega (arith, length-append (le_bytes 8 w) (words_bytes ws), length-words_bytes ws)

length-blake2f_compression :
    (h m : List ℕ) (t0 t1 : ℕ) (f : Bool) (rounds : ℕ)
    → length (blake2f_compression h m t0 t1 f rounds) ≡ length h
unfolding blake2f_compression
length-blake2f_compression h m t0 t1 f rounds = length-fold_state _ h 0

abbrev output : List ℕ → List ℕ
output input = words_bytes (
    blake2f_compression (words_from 8 4 input) (words_from 16 68 input)
      (le_value (part 196 204 input)) (le_value (part 204 212 input))
      (not (get_or input 212 0 == 0)) (be_value (part 0 4 input)))

length-output : (input : List ℕ) → length (output input) ≡ 64
length-output input =
    length-words_bytes _
    ∙ omega (
      arith,
      length-blake2f_compression (words_from 8 4 input) (words_from 16 68 input)
          (le_value (part 196 204 input)) (le_value (part 204 212 input))
          (not (get_or input 212 0 == 0)) (be_value (part 0 4 input)),
      length-words_from 8 4 input,
    )

-- BLAKE2F returns 64 bytes for an input of 213 bytes, whatever the number of rounds, and fails for an
-- input of any other length.
pub blake2f_sizes :
    (input : List ℕ)
    → ((length input ≡ 213) × ((out : List ℕ) × (blake2f input ≡ ok out) × (length out ≡ 64)))
      ⊎ ((length input ≢ 213) × (blake2f input ≡ err precompile_failed))
unfolding blake2f
blake2f_sizes input = elim (Bool-cases (length input == 213)) [
  | inl h ↦ inl (ground arith, (output input, rw (blake2f, h) refl, length-output input))
  | inr h ↦ inr (ground arith, rw (blake2f, h) refl)
]
