-- ===== src/Step/Progress/Bits.antt =====
-- Opcodes 0x10 to 0x1e ask for a charge of more than 0.
use solenoid.Primitives.{Primitives}
use solenoid.Instr.Bits
use solenoid.Step.Progress.{AsksGas, progress_rules}

module _ ⦃prim : Primitives⦄ where
  pub lt-AsksGas : AsksGas Bits.lt
  unfolding Bits.lt
  lt-AsksGas = search progress_rules depth 24

  pub gt-AsksGas : AsksGas Bits.gt
  unfolding Bits.gt
  gt-AsksGas = search progress_rules depth 24

  pub slt-AsksGas : AsksGas Bits.slt
  unfolding Bits.slt
  slt-AsksGas = search progress_rules depth 24

  pub sgt-AsksGas : AsksGas Bits.sgt
  unfolding Bits.sgt
  sgt-AsksGas = search progress_rules depth 24

  pub eq-AsksGas : AsksGas Bits.eq
  unfolding Bits.eq
  eq-AsksGas = search progress_rules depth 24

  pub iszero-AsksGas : AsksGas Bits.iszero
  unfolding Bits.iszero
  iszero-AsksGas = search progress_rules depth 24

  pub and-AsksGas : AsksGas Bits.and
  unfolding Bits.and
  and-AsksGas = search progress_rules depth 24

  pub or-AsksGas : AsksGas Bits.or
  unfolding Bits.or
  or-AsksGas = search progress_rules depth 24

  pub xor-AsksGas : AsksGas Bits.xor
  unfolding Bits.xor
  xor-AsksGas = search progress_rules depth 24

  pub not'-AsksGas : AsksGas Bits.not'
  unfolding Bits.not'
  not'-AsksGas = search progress_rules depth 24

  pub byte-AsksGas : AsksGas Bits.byte
  unfolding Bits.byte
  byte-AsksGas = search progress_rules depth 24

  pub shl-AsksGas : AsksGas Bits.shl
  unfolding Bits.shl
  shl-AsksGas = search progress_rules depth 24

  pub shr-AsksGas : AsksGas Bits.shr
  unfolding Bits.shr
  shr-AsksGas = search progress_rules depth 24

  pub sar-AsksGas : AsksGas Bits.sar
  unfolding Bits.sar
  sar-AsksGas = search progress_rules depth 24

  pub clz-AsksGas : AsksGas Bits.clz
  unfolding Bits.clz
  clz-AsksGas = search progress_rules depth 24
