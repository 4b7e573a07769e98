-- ===== src/Word/Modulo.antt =====
-- `add_modulo` and `mul_modulo` of evm-common/src/word.rs, by way of 512-bit numbers.
use mathlib.Core.Option
use solenoid.Base.{
  ℕ, zero, suc, ◌+◌, ◌*◌, ◌/◌, ◌%◌, ◌^◌, ◌≤◌, ◌<◌, ◌≡◌, ◌==◌, refl, ap, sym, ◌∙◌, Bool-cases, true,
  inl, inr, Option, none, some, List, [], ◌∷◌, ◌++◌, arith, length, drop, ltb, if◌then◌else◌,
}
use solenoid.Primitives.{Primitives, two256}
use solenoid.Primitives.Bytes.{be_bytes, length-be_bytes, be_value-be_bytes}
use solenoid.Word.{Word, mul_modulo, add_modulo}

drop-append :
    {A : Type 0} (n : ℕ) (xs ys : List A) → n ≤ length xs → drop n (xs ++ ys) ≡ drop n xs ++ ys
drop-append zero xs ys h = refl
drop-append (suc n) [] ys h = absurd (omega arith)
drop-append (suc n) (x ∷ xs) ys h = drop-append n xs ys (omega arith)

drop_all : {A : Type 0} (xs : List A) → drop (length xs) xs ≡ []
drop_all [] = refl
drop_all (x ∷ xs) = drop_all xs

-- The last `n` of more bytes are the number's last `n` bytes.
drop-be_bytes : (n k w : ℕ) → drop k (be_bytes (n + k) w) ≡ be_bytes n w
unfolding be_bytes
drop-be_bytes zero k w =
    let whole : 0 + k ≡ k = omega arith in
    ap (λ i. drop k (be_bytes i w)) whole
    ∙ ap (λ i. drop i (be_bytes k w)) (sym (length-be_bytes k w))
    ∙ drop_all (be_bytes k w)
drop-be_bytes (suc n) k w =
    let more : suc n + k ≡ suc (n + k) = omega arith in
    ap (λ i. drop k (be_bytes i w)) more
    ∙ drop-append k (be_bytes (n + k) (w / 256)) ((w % 256) ∷ [])
        (omega (arith, length-be_bytes (n + k) (w / 256)))
    ∙ ap (λ bs. bs ++ (w % 256) ∷ []) (drop-be_bytes n k (w / 256))

module _ ⦃prim : Primitives⦄ where
  -- The lower half of a 512-bit number that fits 256 bits is the number.
  lower_half :
      (r : ℕ) → r < two256 → prim.u256_from_big_endian (drop 32 (prim.u512_to_big_endian r)) ≡ r
  lower_half r h =
      ap (λ bs. prim.u256_from_big_endian (drop 32 bs)) (prim.u512_to_big_endian_law r)
      ∙ ap prim.u256_from_big_endian (drop-be_bytes 32 32 r)
      ∙ prim.u256_from_big_endian_law (be_bytes 32 r) (omega (arith, length-be_bytes 32 r))
      ∙ be_value-be_bytes 32 r h

  halve :
      (o : Option ℕ) (x m : ℕ)
      → m < two256
      → o ≡ (if m == 0 then none else some (x % m))
      → Option.map (λ r. prim.u256_from_big_endian (drop 32 (prim.u512_to_big_endian r))) o
        ≡ (if m == 0 then none else some (x % m))
  halve o x m fits e = elim (Bool-cases (m == 0)) [
    | inl zero_modulus ↦ rw (e, zero_modulus) refl
    | inr positive ↦ rw (e, positive) (ap some (lower_half (x % m) (ground arith)))
  ]

  -- `mul_modulo` is the remainder of the product, not reduced before; it panics on a modulus of
  -- zero.
  pub mul_modulo_lem :
      (a b m : Word) → m < two256 → mul_modulo a b m ≡ (if m == 0 then none else some ((a * b) % m))
  unfolding mul_modulo
  mul_modulo_lem a b m fits = halve (prim.u512_rem (prim.u256_full_mul a b) m) (a * b) m fits (
      prim.u512_rem_law (prim.u256_full_mul a b) m
      ∙ ap (λ x. if m == 0 then none else some (x % m)) (prim.u256_full_mul_law a b))

  in_512 : (w : Word) → prim.u256_full_mul w 1 ≡ w
  in_512 w = prim.u256_full_mul_law w 1 ∙ omega arith

  -- `add_modulo` of two words is the remainder of their sum, which does not overflow; it panics
  -- on a modulus of zero.
  pub add_modulo_lem :
      (a b m : Word)
      → a < two256
      → b < two256
      → m < two256
      → add_modulo a b m ≡ (if m == 0 then none else some ((a + b) % m))
  unfolding add_modulo Option.bind
  add_modulo_lem a b m a_fits b_fits m_fits =
      let small : ltb (a + b) (2 ^ 512) ≡ true = ground arith in
      halve
        (Option.bind (prim.u512_add (prim.u256_full_mul a 1) (prim.u256_full_mul b 1))
          λ s. prim.u512_rem s (prim.u256_full_mul m 1))
        (a + b) m m_fits
        (rw (in_512 a, in_512 b, in_512 m, prim.u512_add_law a b, small)
          (prim.u512_rem_law (a + b) m))
