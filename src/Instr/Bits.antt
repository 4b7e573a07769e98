-- ===== src/Instr/Bits.antt =====
-- Opcodes 0x10 to 0x1e: comparisons and bitwise logic.
use solenoid.Base.{ℕ, ◌+◌, ◌==◌, List, [], ◌∷◌, get_elem?, ltb, leb, if◌then◌else◌}
use solenoid.Base.Int.{pos, ltb_ℤ}
use solenoid.Primitives.{Primitives}
use solenoid.Word.{Word, is_zero, zero_word, word_of, into_bytes}
use solenoid.Machine.{Handler, ◌>>=◌, ◌>>◌, pure, unwrap, pop, push, need_gas, next}
use solenoid.Instr.Frame.{pop_usize}
use solenoid.Instr.Arith.{signed, unsigned}

-- `u8::leading_zeros`
unfoldable pub leading_zeros : ℕ → ℕ
leading_zeros b =
    if leb 128 b
    then 0
    else if leb 64 b
    then 1
    else if leb 32 b
    then 2
    else if leb 16 b
    then 3
    else if leb 8 b
    then 4
    else if leb 4 b
    then 5
    else if leb 2 b
    then 6
    else if leb 1 b
    then 7
    else 8

-- The loop of CLZ: 8 for each zero byte, and the zeros of the first other byte.
unfoldable pub clz_loop : ℕ → List ℕ → ℕ
unfolding leading_zeros
clz_loop count [] = count
clz_loop count (b ∷ bs) = if b == 0 then clz_loop (count + 8) bs else count + leading_zeros b

module _ ⦃prim : Primitives⦄ where
  -- Two operands, and the word that is pushed for them; all these arms cost 3.
  abbrev binary : (Word → Word → Word) → Handler
  binary f = need_gas (pos 3) do a ← pop; b ← pop; push (f a b); next (pos 3)

  unfoldable pub lt : Handler
  lt = binary λ a b. word_of (ltb a b)

  unfoldable pub gt : Handler
  gt = binary λ a b. word_of (ltb b a)

  unfoldable pub slt : Handler
  slt = binary λ a b. word_of (ltb_ℤ (signed a) (signed b))

  unfoldable pub sgt : Handler
  sgt = binary λ a b. word_of (ltb_ℤ (signed b) (signed a))

  unfoldable pub eq : Handler
  eq = binary λ a b. word_of (a == b)

  unfoldable pub iszero : Handler
  iszero = need_gas (pos 3) do a ← pop; push (word_of (is_zero a)); next (pos 3)

  unfoldable pub and : Handler
  and = binary prim.u256_and

  unfoldable pub or : Handler
  or = binary prim.u256_or

  unfoldable pub xor : Handler
  xor = binary prim.u256_xor

  unfoldable pub not' : Handler
  not' = need_gas (pos 3) do a ← pop; push (prim.u256_not a); next (pos 3)

  unfoldable pub byte : Handler
  byte = need_gas (pos 3) do
    index ← pop_usize
    value ← pop
    r ← (if ltb index 32 then unwrap (get_elem? (into_bytes value) index) else pure zero_word)
    push r
    next (pos 3)

  unfoldable pub shl : Handler
  shl =
      need_gas (pos 3)
        do shift ← pop_usize; value ← pop; push (prim.u256_shl value shift); next (pos 3)

  unfoldable pub shr : Handler
  shr =
      need_gas (pos 3)
        do shift ← pop_usize; value ← pop; push (prim.u256_shr value shift); next (pos 3)

  unfoldable pub sar : Handler
  sar = need_gas (pos 3) do
    shift ← pop_usize
    value ← pop
    r ← unwrap (prim.i256_shr (signed value) shift)
    push (unsigned r)
    next (pos 3)

  unfoldable pub clz : Handler
  clz = need_gas (pos 5) do
    value ← pop
    push (if is_zero value then 256 else clz_loop 0 (into_bytes value))
    next (pos 5)
