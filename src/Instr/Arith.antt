-- ===== src/Instr/Arith.antt =====
-- Opcodes 0x01 to 0x0b: arithmetic.

use solenoid.Base.{
  ℕ, suc, ◌-◌, ◌^◌, ◌*◌, ◌%◌, ◌==◌, ◌||◌, ◌&&◌, Bool, List, [], ◌∷◌, length, if◌then◌else◌,
}
use solenoid.Base.Int.{ℤ, pos, negsuc, leb_ℤ}
use solenoid.Base.I64.{as_i64, add_i64, mul_i64, add_usize, sub_usize, two64}
use solenoid.Primitives.{Primitives}
use solenoid.Word.{
  Word, is_zero, zero_word, max_word, mul_modulo, add_modulo, into_bytes, from_bytes, bit, pow,
}
use solenoid.Machine.{Handler, ◌>>=◌, ◌>>◌, pure, unwrap, pop, push, need_gas, next}
use solenoid.Instr.Frame.{pop_usize}

-- The number of bytes behind the leading zeros.
unfoldable pub significant : List ℕ → ℕ
significant [] = 0
significant (b ∷ bs) = if b == 0 then significant bs else suc (length bs)

abbrev i256_min : ℤ
i256_min = negsuc (2 ^ 255 - 1)

abbrev eq_ℤ : ℤ → ℤ → Bool
eq_ℤ a b = leb_ℤ a b && leb_ℤ b a

module _ ⦃prim : Primitives⦄ where
  unfoldable pub add : Handler
  add = need_gas (pos 3) do a ← pop; b ← pop; push (prim.u256_overflowing_add a b).0; next (pos 3)

  unfoldable pub mul : Handler
  mul = need_gas (pos 5) do a ← pop; b ← pop; push (prim.u256_overflowing_mul a b).0; next (pos 5)

  unfoldable pub sub : Handler
  sub = need_gas (pos 3) do a ← pop; b ← pop; push (prim.u256_overflowing_sub a b).0; next (pos 3)

  unfoldable pub div : Handler
  div = need_gas (pos 5) do
    a ← pop
    b ← pop
    r ← (if is_zero b || is_zero a then pure zero_word else unwrap (prim.u256_div a b))
    push r
    next (pos 5)

  -- `I256::from_be_bytes(w.into_bytes())`, and the way back.
  abbrev pub signed : Word → ℤ
  signed w = prim.i256_from_be_bytes (into_bytes w)

  abbrev pub unsigned : ℤ → Word
  unsigned z = from_bytes (prim.i256_to_be_bytes z)

  unfoldable pub sdiv : Handler
  sdiv = need_gas (pos 5) do
    a ← pop
    b ← pop
    r ←
        (if is_zero b
          then pure (pos 0)
          else if eq_ℤ (signed a) i256_min && eq_ℤ (signed b) (negsuc 0)
          then pure i256_min
          else unwrap (prim.i256_div (signed a) (signed b)))
    push (unsigned r)
    next (pos 5)

  unfoldable pub mod' : Handler
  mod' = need_gas (pos 5) do
    a ← pop
    b ← pop
    r ← (if is_zero b then pure zero_word else unwrap (prim.u256_rem a b))
    push r
    next (pos 5)

  unfoldable pub smod : Handler
  smod = need_gas (pos 5) do
    a ← pop
    b ← pop
    r ← (if is_zero b then pure (pos 0) else unwrap (prim.i256_rem (signed a) (signed b)))
    push (unsigned r)
    next (pos 5)

  unfoldable pub addmod : Handler
  addmod = need_gas (pos 8) do
    a ← pop
    b ← pop
    m ← pop
    r ← (if is_zero m then pure zero_word else unwrap (add_modulo a b m))
    push r
    next (pos 8)

  unfoldable pub mulmod : Handler
  mulmod =
      need_gas (pos 8)
        do a ← pop; b ← pop; m ← pop; r ← unwrap (mul_modulo a b m); push r; next (pos 8)

  -- 50 for each byte of the exponent.
  abbrev pub exp_cost : Word → ℤ
  exp_cost exponent =
      add_i64 (pos 10) (mul_i64 (as_i64 (significant (into_bytes exponent))) (pos 50))

  unfoldable pub exp : Handler
  exp = do
    base ← pop
    exponent ← pop
    need_gas (exp_cost exponent) do push (pow base exponent); next (exp_cost exponent)

  unfoldable pub signextend : Handler
  signextend = need_gas (pos 5) do
    x ← pop_usize
    b ← pop
    let at = sub_usize ((add_usize x 1 * 8) % two64) 1
    neg ← unwrap (bit b at)
    let mask = prim.u256_shl max_word (add_usize at 1)
    push (if neg then prim.u256_or b mask else prim.u256_and b (prim.u256_not mask))
    next (pos 5)
