-- ===== src/Frames.antt =====
-- The frames of src/executor.rs, each run by an instruction of another: on fuel for the rounds of
-- each loop, and on levels for the frames within frames.
pub mod Report
pub mod Inner
pub mod Warm
pub mod Transfer
pub mod Call
pub mod Create
pub mod System
pub mod Loop
pub mod Sound
pub mod Depth
pub mod Forwarding
pub mod Reverted
pub mod Progress
use solenoid.Base.{ℕ, zero, suc}
use solenoid.Primitives.{Primitives}
use solenoid.Outcome.{unfinished}
use solenoid.Precompiles.Interface.{Crates}
use solenoid.Frames.Inner.{Runner, enter}
use solenoid.Frames.System.{system_call}
use solenoid.Frames.Loop.{execute_with_context}

module _ ⦃prim : Primitives⦄ ⦃crates : Crates⦄ where
  unfoldable pub run : ℕ → ℕ → Runner
  unfolding execute_with_context system_call
  run fuel zero code call ctx s = (unfinished, s)
  run fuel (suc levels) code call ctx s =
      execute_with_context (system_call (enter ctx.depth (run fuel levels))) fuel code call ctx s
