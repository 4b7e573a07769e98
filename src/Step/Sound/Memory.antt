-- ===== src/Step/Sound/Memory.antt =====
-- Opcodes 0x50 to 0x53 and 0x5e keep the stack within its limit and the memory whole.
use solenoid.Base.{ℕ, List, arith, length-resize, ◌-◌, ◌%◌}
use solenoid.Base.I64.{add_usize}
use solenoid.Primitives.{Primitives}
use solenoid.Machine.Keeps.{Keeps}
use solenoid.Instr.Frame.{padded}
use solenoid.Instr.Memory
use solenoid.Step.Sound.{IsSound, sound_rules}

access_gas-IsSound : Keeps IsSound Memory.access_gas
unfolding Memory.access_gas
access_gas-IsSound = search sound_rules depth 24

move_buffer-IsSound :
    (offset size : ℕ) (memory : List ℕ) → Keeps IsSound (Memory.move_buffer offset size memory)
unfolding Memory.move_buffer
move_buffer-IsSound offset size memory = search sound_rules depth 24

expand_move-IsSound : (len dest_end : ℕ) → Keeps IsSound (Memory.expand_move len dest_end)
unfolding Memory.expand_move add_usize
expand_move-IsSound len dest_end = record {
  at = λ s h. ground (arith, length-resize (add_usize len ((32 - len % 32) % 32)) 0 s.evm.memory);
}

expand_byte-IsSound : (offset : ℕ) → Keeps IsSound (Memory.expand_byte offset)
unfolding Memory.expand_byte
expand_byte-IsSound offset = record {
  at = λ s h. ground (arith, length-resize (padded (add_usize offset 1)) 0 s.evm.memory);
}

ruleset memory_rules =
    (sound_rules, access_gas-IsSound, move_buffer-IsSound, expand_move-IsSound, expand_byte-IsSound)

pub pop_op-IsSound : Keeps IsSound Memory.pop_op
unfolding Memory.pop_op
pop_op-IsSound = search sound_rules depth 24

module _ ⦃prim : Primitives⦄ where
  pub mload-IsSound : Keeps IsSound Memory.mload
  unfolding Memory.mload
  mload-IsSound = search memory_rules depth 24

  pub mstore-IsSound : Keeps IsSound Memory.mstore
  unfolding Memory.mstore
  mstore-IsSound = search memory_rules depth 24

  pub mstore8-IsSound : Keeps IsSound Memory.mstore8
  unfolding Memory.mstore8
  mstore8-IsSound = search memory_rules depth 24

  pub mcopy-IsSound : Keeps IsSound Memory.mcopy
  unfolding Memory.mcopy
  mcopy-IsSound = search memory_rules depth 24
