-- ===== src/Decoder/Loop.antt =====
-- The decoding loop ends by its test, and keeps what each round keeps.
use solenoid.Base.{
  ℕ, zero, suc, ◌+◌, ◌≤◌, ◌<◌, ◌≡◌, List, arith, length, ltb, ltb→lt, Bool-cases, inl, inr,
}
use solenoid.Decoder.{Decoding, decode_step, decode_loop}

-- A round moves forward, and stays within the bytecode.
pub pos-decode_step :
    (bytecode : List ℕ) (s : Decoding)
    → s.pos < length bytecode
    → (s.pos < (decode_step bytecode s).pos) × ((decode_step bytecode s).pos ≤ length bytecode)
unfolding decode_step
pos-decode_step bytecode s h = ground arith

-- From a position within the bytecode, with fuel for each byte that is left, the loop stops where
-- the bytecode ends.
pub pos-decode_loop :
    (fuel : ℕ) (bytecode : List ℕ) (s : Decoding)
    → s.pos ≤ length bytecode
    → length bytecode ≤ s.pos + fuel
    → (decode_loop fuel bytecode s).pos ≡ length bytecode
unfolding decode_loop
pos-decode_loop zero bytecode s h f = omega arith
pos-decode_loop (suc fuel) bytecode s h f =
    ground
      (arith, pos-decode_step bytecode s, pos-decode_loop fuel bytecode (decode_step bytecode s))

-- What every round keeps, the loop keeps.
pub decode_loop_inv {ℓ} :
    (P : Decoding → Type ℓ) (bytecode : List ℕ)
    → ((s : Decoding) → s.pos < length bytecode → P s → P (decode_step bytecode s))
    → (fuel : ℕ) (s : Decoding) → P s
    → P (decode_loop fuel bytecode s)
unfolding decode_loop
decode_loop_inv P bytecode keep zero s h = h
decode_loop_inv P bytecode keep (suc fuel) s h = elim (Bool-cases (ltb s.pos (length bytecode))) [
  | inl more ↦
      rw more
        (decode_loop_inv P bytecode keep fuel (decode_step bytecode s) (keep s (ltb→lt _ _ more) h))
  | inr done ↦ rw done h
]
