-- ===== src/Step/Progress/Env.antt =====
-- The opcodes from 0x30 to 0x3f that do not copy ask for a charge of more than 0.
use solenoid.Primitives.{Primitives}
use solenoid.Instr.Env
use solenoid.Instr.Frame.{Frame}
use solenoid.Step.Progress.{AsksGas}
use solenoid.Step.Progress.World.{world_rules}

module _ ⦃prim : Primitives⦄ (f : Frame) where
  pub address-AsksGas : AsksGas (Env.address f)
  unfolding Env.address
  address-AsksGas = search world_rules depth 24

  pub balance_op-AsksGas : AsksGas (Env.balance_op f)
  unfolding Env.balance_op
  balance_op-AsksGas = search world_rules depth 24

  pub origin-AsksGas : AsksGas (Env.origin f)
  unfolding Env.origin
  origin-AsksGas = search world_rules depth 24

  pub caller-AsksGas : AsksGas (Env.caller f)
  unfolding Env.caller
  caller-AsksGas = search world_rules depth 24

  pub callvalue-AsksGas : AsksGas (Env.callvalue f)
  unfolding Env.callvalue
  callvalue-AsksGas = search world_rules depth 24

  pub calldataload-AsksGas : AsksGas (Env.calldataload f)
  unfolding Env.calldataload
  calldataload-AsksGas = search world_rules depth 24

  pub calldatasize-AsksGas : AsksGas (Env.calldatasize f)
  unfolding Env.calldatasize
  calldatasize-AsksGas = search world_rules depth 24

  pub codesize-AsksGas : AsksGas (Env.codesize f)
  unfolding Env.codesize
  codesize-AsksGas = search world_rules depth 24

  pub gasprice-AsksGas : AsksGas (Env.gasprice f)
  unfolding Env.gasprice
  gasprice-AsksGas = search world_rules depth 24

  pub extcodesize-AsksGas : AsksGas (Env.extcodesize f)
  unfolding Env.extcodesize
  extcodesize-AsksGas = search world_rules depth 24

  pub returndatasize-AsksGas : AsksGas (Env.returndatasize f)
  unfolding Env.returndatasize
  returndatasize-AsksGas = search world_rules depth 24

  pub extcodehash-AsksGas : AsksGas (Env.extcodehash f)
  unfolding Env.extcodehash
  extcodehash-AsksGas = search world_rules depth 24
