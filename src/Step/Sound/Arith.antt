-- ===== src/Step/Sound/Arith.antt =====
-- Opcodes 0x01 to 0x0b keep the stack within its limit and the memory whole.
use solenoid.Primitives.{Primitives}
use solenoid.Machine.Keeps.{Keeps}
use solenoid.Instr.Arith
use solenoid.Step.Sound.{IsSound, sound_rules}

module _ ⦃prim : Primitives⦄ where
  pub add-IsSound : Keeps IsSound (Arith.add)
  unfolding Arith.add
  add-IsSound = search sound_rules depth 24

  pub mul-IsSound : Keeps IsSound (Arith.mul)
  unfolding Arith.mul
  mul-IsSound = search sound_rules depth 24

  pub sub-IsSound : Keeps IsSound (Arith.sub)
  unfolding Arith.sub
  sub-IsSound = search sound_rules depth 24

  pub div-IsSound : Keeps IsSound (Arith.div)
  unfolding Arith.div
  div-IsSound = search sound_rules depth 24

  pub sdiv-IsSound : Keeps IsSound (Arith.sdiv)
  unfolding Arith.sdiv
  sdiv-IsSound = search sound_rules depth 24

  pub mod'-IsSound : Keeps IsSound (Arith.mod')
  unfolding Arith.mod'
  mod'-IsSound = search sound_rules depth 24

  pub smod-IsSound : Keeps IsSound (Arith.smod)
  unfolding Arith.smod
  smod-IsSound = search sound_rules depth 24

  pub addmod-IsSound : Keeps IsSound (Arith.addmod)
  unfolding Arith.addmod
  addmod-IsSound = search sound_rules depth 24

  pub mulmod-IsSound : Keeps IsSound (Arith.mulmod)
  unfolding Arith.mulmod
  mulmod-IsSound = search sound_rules depth 24

  pub exp-IsSound : Keeps IsSound (Arith.exp)
  unfolding Arith.exp
  exp-IsSound = search sound_rules depth 24

  pub signextend-IsSound : Keeps IsSound (Arith.signextend)
  unfolding Arith.signextend
  signextend-IsSound = search sound_rules depth 24
