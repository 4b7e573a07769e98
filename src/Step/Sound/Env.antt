-- ===== src/Step/Sound/Env.antt =====
-- Opcodes 0x20 and 0x30 to 0x3f keep the stack within its limit and the memory whole.
use solenoid.Primitives.{Primitives}
use solenoid.Machine.Keeps.{Keeps}
use solenoid.Instr.Env
use solenoid.Step.Sound.{IsSound, sound_rules}
use solenoid.Instr.Frame.{Frame}
use solenoid.Base.{ℕ, List, arith}

pub address_access_cost-IsSound : (a : ℕ) → Keeps IsSound (Env.address_access_cost a)
unfolding Env.address_access_cost
address_access_cost-IsSound a = record { at = λ s h. ground arith }

expand_buffer-IsSound :
    (end size : ℕ) (bytes : List ℕ) → Keeps IsSound (Env.expand_buffer end size bytes)
unfolding Env.expand_buffer
expand_buffer-IsSound end size bytes = record { at = λ s h. ground arith }

module _ ⦃prim : Primitives⦄ (f : Frame) where
  copy_to_memory-IsSound :
      (dest offset size : ℕ) (bytes : List ℕ)
      → Keeps IsSound (Env.copy_to_memory f dest offset size bytes)
  unfolding Env.copy_to_memory
  copy_to_memory-IsSound dest offset size bytes = search sound_rules depth 24

  copy_code-IsSound :
      (dest offset size : ℕ) (bytes : List ℕ)
      → Keeps IsSound (Env.copy_code f dest offset size bytes)
  unfolding Env.copy_code
  copy_code-IsSound dest offset size bytes =
      search (sound_rules, expand_buffer-IsSound, copy_to_memory-IsSound) depth 24

ruleset env_rules = (
  sound_rules, address_access_cost-IsSound, expand_buffer-IsSound, copy_to_memory-IsSound,
  copy_code-IsSound,
)

module _ ⦃prim : Primitives⦄ (f : Frame) where
  pub sha3-IsSound : Keeps IsSound (Env.sha3 f)
  unfolding Env.sha3
  sha3-IsSound = search env_rules depth 24

  pub address-IsSound : Keeps IsSound (Env.address f)
  unfolding Env.address
  address-IsSound = search env_rules depth 24

  pub balance_op-IsSound : Keeps IsSound (Env.balance_op f)
  unfolding Env.balance_op
  balance_op-IsSound = search env_rules depth 24

  pub origin-IsSound : Keeps IsSound (Env.origin f)
  unfolding Env.origin
  origin-IsSound = search env_rules depth 24

  pub caller-IsSound : Keeps IsSound (Env.caller f)
  unfolding Env.caller
  caller-IsSound = search env_rules depth 24

  pub callvalue-IsSound : Keeps IsSound (Env.callvalue f)
  unfolding Env.callvalue
  callvalue-IsSound = search env_rules depth 24

  pub calldataload-IsSound : Keeps IsSound (Env.calldataload f)
  unfolding Env.calldataload
  calldataload-IsSound = search env_rules depth 24

  pub calldatasize-IsSound : Keeps IsSound (Env.calldatasize f)
  unfolding Env.calldatasize
  calldatasize-IsSound = search env_rules depth 24

  pub calldatacopy-IsSound : Keeps IsSound (Env.calldatacopy f)
  unfolding Env.calldatacopy
  calldatacopy-IsSound = search env_rules depth 24

  pub codesize-IsSound : Keeps IsSound (Env.codesize f)
  unfolding Env.codesize
  codesize-IsSound = search env_rules depth 24

  pub codecopy-IsSound : Keeps IsSound (Env.codecopy f)
  unfolding Env.codecopy
  codecopy-IsSound = search env_rules depth 24

  pub gasprice-IsSound : Keeps IsSound (Env.gasprice f)
  unfolding Env.gasprice
  gasprice-IsSound = search env_rules depth 24

  pub extcodesize-IsSound : Keeps IsSound (Env.extcodesize f)
  unfolding Env.extcodesize
  extcodesize-IsSound = search env_rules depth 24

  pub extcodecopy-IsSound : Keeps IsSound (Env.extcodecopy f)
  unfolding Env.extcodecopy
  extcodecopy-IsSound = search env_rules depth 24

  pub returndatasize-IsSound : Keeps IsSound (Env.returndatasize f)
  unfolding Env.returndatasize
  returndatasize-IsSound = search env_rules depth 24

  pub returndatacopy-IsSound : Keeps IsSound (Env.returndatacopy f)
  unfolding Env.returndatacopy
  returndatacopy-IsSound = search env_rules depth 24

  pub extcodehash-IsSound : Keeps IsSound (Env.extcodehash f)
  unfolding Env.extcodehash
  extcodehash-IsSound = search env_rules depth 24
