-- ===== src/Step/Sound/Flow.antt =====
-- The flow of control keeps the stack within its limit and the memory whole.
use solenoid.Base.{refl, Bool, true, false, ℕ, Option, none, some}
use solenoid.Base.Int.{ℤ}
use solenoid.Primitives.{Primitives}
use solenoid.Machine.{modify_evm}
use solenoid.Machine.Keeps.{Keeps}
use solenoid.Instr.Frame.{Frame}
use solenoid.Instr.Flow
use solenoid.Step.Sound.{IsSound, sound_rules, modify_evm-IsSound}

set_pc-IsSound : (dest : ℕ) → Keeps IsSound (modify_evm (λ evm. record evm { pc = dest }))
set_pc-IsSound dest = modify_evm-IsSound _ (λ evm. refl) (λ evm. refl)

set_stopped-IsSound :
    (r : Bool) → Keeps IsSound (modify_evm (λ evm. record evm { stopped = true; reverted = r }))
set_stopped-IsSound r = modify_evm-IsSound _ (λ evm. refl) (λ evm. refl)

set_end-IsSound :
    (n : ℕ)
    → Keeps IsSound (modify_evm (λ evm. record evm { pc = n; stopped = true; reverted = false }))
set_end-IsSound n = modify_evm-IsSound _ (λ evm. refl) (λ evm. refl)

pub stop-IsSound : (f : Frame) → Keeps IsSound (Flow.stop f)
unfolding Flow.stop
stop-IsSound f = search (sound_rules, set_end-IsSound) depth 24

pub jumpdest-IsSound : Keeps IsSound Flow.jumpdest
unfolding Flow.jumpdest
jumpdest-IsSound = search sound_rules depth 24

jump_or_halt-IsSound : (gas : ℤ) (o : Option ℕ) → Keeps IsSound (Flow.jump_or_halt gas o)
unfolding Flow.jump_or_halt
jump_or_halt-IsSound gas none = search sound_rules
jump_or_halt-IsSound gas (some dest) = search (sound_rules, set_pc-IsSound)

module _ ⦃prim : Primitives⦄ (f : Frame) where
  pub jump-IsSound : Keeps IsSound (Flow.jump f)
  unfolding Flow.jump
  jump-IsSound = search (sound_rules, jump_or_halt-IsSound) depth 24

  pub jumpi-IsSound : Keeps IsSound (Flow.jumpi f)
  unfolding Flow.jumpi
  jumpi-IsSound = search (sound_rules, jump_or_halt-IsSound) depth 24

  pub pc_op-IsSound : Keeps IsSound (Flow.pc_op f)
  unfolding Flow.pc_op
  pc_op-IsSound = search sound_rules depth 24

  pub return_op-IsSound : (r : Bool) → Keeps IsSound (Flow.return_op f r)
  unfolding Flow.return_op
  return_op-IsSound r = search (sound_rules, set_stopped-IsSound) depth 30

  pub selfdestruct-IsSound : Keeps IsSound (Flow.selfdestruct f)
  unfolding Flow.selfdestruct
  selfdestruct-IsSound = search sound_rules depth 30

pub msize-IsSound : Keeps IsSound Flow.msize
unfolding Flow.msize
msize-IsSound = search sound_rules depth 24

pub gas_op-IsSound : Keeps IsSound Flow.gas_op
unfolding Flow.gas_op
gas_op-IsSound = search sound_rules depth 24
