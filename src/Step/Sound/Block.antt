-- ===== src/Step/Sound/Block.antt =====
-- Opcodes 0x40 to 0x4a keep the stack within its limit and the memory whole.
use solenoid.Primitives.{Primitives}
use solenoid.Machine.Keeps.{Keeps}
use solenoid.Instr.Block
use solenoid.Step.Sound.{IsSound, sound_rules}
use solenoid.Instr.Frame.{Frame}

module _ ⦃prim : Primitives⦄ (f : Frame) where
  pub blockhash-IsSound : Keeps IsSound (Block.blockhash f)
  unfolding Block.blockhash
  blockhash-IsSound = search sound_rules depth 24

  pub coinbase-IsSound : Keeps IsSound (Block.coinbase f)
  unfolding Block.coinbase
  coinbase-IsSound = search sound_rules depth 24

  pub timestamp-IsSound : Keeps IsSound (Block.timestamp f)
  unfolding Block.timestamp
  timestamp-IsSound = search sound_rules depth 24

  pub number-IsSound : Keeps IsSound (Block.number f)
  unfolding Block.number
  number-IsSound = search sound_rules depth 24

  pub prevrandao-IsSound : Keeps IsSound (Block.prevrandao f)
  unfolding Block.prevrandao
  prevrandao-IsSound = search sound_rules depth 24

  pub gaslimit-IsSound : Keeps IsSound (Block.gaslimit f)
  unfolding Block.gaslimit
  gaslimit-IsSound = search sound_rules depth 24

  pub chainid-IsSound : Keeps IsSound (Block.chainid f)
  unfolding Block.chainid
  chainid-IsSound = search sound_rules depth 24

  pub selfbalance-IsSound : Keeps IsSound (Block.selfbalance f)
  unfolding Block.selfbalance
  selfbalance-IsSound = search sound_rules depth 24

  pub basefee-IsSound : Keeps IsSound (Block.basefee f)
  unfolding Block.basefee
  basefee-IsSound = search sound_rules depth 24

  pub blobhash-IsSound : Keeps IsSound (Block.blobhash f)
  unfolding Block.blobhash
  blobhash-IsSound = search sound_rules depth 24

  pub blobbasefee-IsSound : Keeps IsSound (Block.blobbasefee f)
  unfolding Block.blobbasefee
  blobbasefee-IsSound = search sound_rules depth 24
