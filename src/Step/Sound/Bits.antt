-- ===== src/Step/Sound/Bits.antt =====
-- Opcodes 0x10 to 0x1e keep the stack within its limit and the memory whole.
use solenoid.Primitives.{Primitives}
use solenoid.Machine.Keeps.{Keeps}
use solenoid.Instr.Bits
use solenoid.Step.Sound.{IsSound, sound_rules}

module _ ⦃prim : Primitives⦄ where
  pub lt-IsSound : Keeps IsSound (Bits.lt)
  unfolding Bits.lt
  lt-IsSound = search sound_rules depth 24

  pub gt-IsSound : Keeps IsSound (Bits.gt)
  unfolding Bits.gt
  gt-IsSound = search sound_rules depth 24

  pub slt-IsSound : Keeps IsSound (Bits.slt)
  unfolding Bits.slt
  slt-IsSound = search sound_rules depth 24

  pub sgt-IsSound : Keeps IsSound (Bits.sgt)
  unfolding Bits.sgt
  sgt-IsSound = search sound_rules depth 24

  pub eq-IsSound : Keeps IsSound (Bits.eq)
  unfolding Bits.eq
  eq-IsSound = search sound_rules depth 24

  pub iszero-IsSound : Keeps IsSound (Bits.iszero)
  unfolding Bits.iszero
  iszero-IsSound = search sound_rules depth 24

  pub and-IsSound : Keeps IsSound (Bits.and)
  unfolding Bits.and
  and-IsSound = search sound_rules depth 24

  pub or-IsSound : Keeps IsSound (Bits.or)
  unfolding Bits.or
  or-IsSound = search sound_rules depth 24

  pub xor-IsSound : Keeps IsSound (Bits.xor)
  unfolding Bits.xor
  xor-IsSound = search sound_rules depth 24

  pub not'-IsSound : Keeps IsSound (Bits.not')
  unfolding Bits.not'
  not'-IsSound = search sound_rules depth 24

  pub byte-IsSound : Keeps IsSound (Bits.byte)
  unfolding Bits.byte
  byte-IsSound = search sound_rules depth 24

  pub shl-IsSound : Keeps IsSound (Bits.shl)
  unfolding Bits.shl
  shl-IsSound = search sound_rules depth 24

  pub shr-IsSound : Keeps IsSound (Bits.shr)
  unfolding Bits.shr
  shr-IsSound = search sound_rules depth 24

  pub sar-IsSound : Keeps IsSound (Bits.sar)
  unfolding Bits.sar
  sar-IsSound = search sound_rules depth 24

  pub clz-IsSound : Keeps IsSound (Bits.clz)
  unfolding Bits.clz
  clz-IsSound = search sound_rules depth 24
