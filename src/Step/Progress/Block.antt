-- ===== src/Step/Progress/Block.antt =====
-- Opcodes 0x40 to 0x4a ask for a charge of more than 0.
use solenoid.Primitives.{Primitives}
use solenoid.Instr.Block
use solenoid.Instr.Frame.{Frame}
use solenoid.Step.Progress.{AsksGas}
use solenoid.Step.Progress.World.{world_rules}

module _ ⦃prim : Primitives⦄ (f : Frame) where
  pub blockhash-AsksGas : AsksGas (Block.blockhash f)
  unfolding Block.blockhash
  blockhash-AsksGas = search world_rules depth 24

  pub coinbase-AsksGas : AsksGas (Block.coinbase f)
  unfolding Block.coinbase
  coinbase-AsksGas = search world_rules depth 24

  pub timestamp-AsksGas : AsksGas (Block.timestamp f)
  unfolding Block.timestamp
  timestamp-AsksGas = search world_rules depth 24

  pub number-AsksGas : AsksGas (Block.number f)
  unfolding Block.number
  number-AsksGas = search world_rules depth 24

  pub prevrandao-AsksGas : AsksGas (Block.prevrandao f)
  unfolding Block.prevrandao
  prevrandao-AsksGas = search world_rules depth 24

  pub gaslimit-AsksGas : AsksGas (Block.gaslimit f)
  unfolding Block.gaslimit
  gaslimit-AsksGas = search world_rules depth 24

  pub chainid-AsksGas : AsksGas (Block.chainid f)
  unfolding Block.chainid
  chainid-AsksGas = search world_rules depth 24

  pub selfbalance-AsksGas : AsksGas (Block.selfbalance f)
  unfolding Block.selfbalance
  selfbalance-AsksGas = search world_rules depth 24

  pub basefee-AsksGas : AsksGas (Block.basefee f)
  unfolding Block.basefee
  basefee-AsksGas = search world_rules depth 24

  pub blobhash-AsksGas : AsksGas (Block.blobhash f)
  unfolding Block.blobhash
  blobhash-AsksGas = search world_rules depth 24

  pub blobbasefee-AsksGas : AsksGas (Block.blobbasefee f)
  unfolding Block.blobbasefee
  blobbasefee-AsksGas = search world_rules depth 24
