-- ===== src/Instr.antt =====
-- The handlers of `execute_instruction` in src/executor.rs, by kind. Each is the arm of one opcode,
-- up to the step to the next instruction and the returned cost. Assignments to `self.debug` and
-- the printed log are left out.
pub mod Frame
pub mod Arith
pub mod Bits
pub mod Env
pub mod Block
pub mod Memory
pub mod Storage
pub mod Flow
pub mod Stack
