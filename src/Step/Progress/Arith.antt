-- ===== src/Step/Progress/Arith.antt =====
-- Opcodes 0x01 to 0x0b ask for a charge of more than 0.
use solenoid.Primitives.{Primitives}
use solenoid.Instr.Arith
use solenoid.Step.Progress.{AsksGas, progress_rules}

module _ ⦃prim : Primitives⦄ where
  pub add-AsksGas : AsksGas Arith.add
  unfolding Arith.add
  add-AsksGas = search progress_rules depth 24

  pub mul-AsksGas : AsksGas Arith.mul
  unfolding Arith.mul
  mul-AsksGas = search progress_rules depth 24

  pub sub-AsksGas : AsksGas Arith.sub
  unfolding Arith.sub
  sub-AsksGas = search progress_rules depth 24

  pub div-AsksGas : AsksGas Arith.div
  unfolding Arith.div
  div-AsksGas = search progress_rules depth 24

  pub sdiv-AsksGas : AsksGas Arith.sdiv
  unfolding Arith.sdiv
  sdiv-AsksGas = search progress_rules depth 24

  pub mod'-AsksGas : AsksGas Arith.mod'
  unfolding Arith.mod'
  mod'-AsksGas = search progress_rules depth 24

  pub smod-AsksGas : AsksGas Arith.smod
  unfolding Arith.smod
  smod-AsksGas = search progress_rules depth 24

  pub addmod-AsksGas : AsksGas Arith.addmod
  unfolding Arith.addmod
  addmod-AsksGas = search progress_rules depth 24

  pub mulmod-AsksGas : AsksGas Arith.mulmod
  unfolding Arith.mulmod
  mulmod-AsksGas = search progress_rules depth 24

  pub signextend-AsksGas : AsksGas Arith.signextend
  unfolding Arith.signextend
  signextend-AsksGas = search progress_rules depth 24
