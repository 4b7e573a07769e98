-- ===== src/Step/Progress/Flow.antt =====
-- The flow of control asks for a charge of more than 0, or stops the frame.
use solenoid.Base.{refl, true, ℕ, ◌≡◌, ◌+◌, Option, none, some, arith, inr}
use solenoid.Base.Int.{ℤ, pos}
use solenoid.Primitives.{Primitives}
use solenoid.Outcome.{Outcome, ok, err, panic, unfinished}
use solenoid.Machine.{Machine, Handler, StepResult, modify_evm}
use solenoid.Instr.Frame.{Frame}
use solenoid.Instr.Flow
use solenoid.Step.Progress.{
  AsksGas, Asked, IsPositive, Kept, KeepsGas, progress_rules, modify_evm-KeepsGas,
}
use solenoid.Step.Progress.World.{world_rules}

set_pc-KeepsGas : (dest : ℕ) → KeepsGas (modify_evm (λ evm. record evm { pc = dest }))
set_pc-KeepsGas dest = modify_evm-KeepsGas _ λ evm. refl

pub jumpdest-AsksGas : AsksGas Flow.jumpdest
unfolding Flow.jumpdest
jumpdest-AsksGas = search progress_rules depth 24

jump_or_halt-AsksGas : (gas : ℤ) (o : Option ℕ) → IsPositive gas → AsksGas (Flow.jump_or_halt gas o)
unfolding Flow.jump_or_halt
jump_or_halt-AsksGas gas none p = search progress_rules
jump_or_halt-AsksGas gas (some dest) p = search (progress_rules, set_pc-KeepsGas)

-- A frame that is stopped.
abbrev pub IsStopped : Machine → Type 0
IsStopped s = s.evm.stopped ≡ true

-- A handler that stops the frame may ask for any charge.
asked_stopped :
    (s : Machine) (r : Outcome StepResult × Machine) → Kept s r → IsStopped r.1 → Asked s r
asked_stopped s (ok (StepResult.done cost), t) p h = (p, inr h)
asked_stopped s (ok (StepResult.halt cost), t) p h = p
asked_stopped s (err e, t) p h = tt
asked_stopped s (panic, t) p h = tt
asked_stopped s (unfinished, t) p h = p

pub stopped-AsksGas : (h : Handler) → KeepsGas h → ((s : Machine) → IsStopped (h s).1) → AsksGas h
stopped-AsksGas h k stops = record { at = λ s. asked_stopped s (h s) (k.at s) (stops s) }

module _ ⦃prim : Primitives⦄ (f : Frame) where
  pub jump-AsksGas : AsksGas (Flow.jump f)
  unfolding Flow.jump
  jump-AsksGas = search (progress_rules, jump_or_halt-AsksGas) depth 24

  pub jumpi-AsksGas : AsksGas (Flow.jumpi f)
  unfolding Flow.jumpi
  jumpi-AsksGas = search (progress_rules, jump_or_halt-AsksGas) depth 24

  pub pc_op-AsksGas : AsksGas (Flow.pc_op f)
  unfolding Flow.pc_op
  pc_op-AsksGas = search progress_rules depth 24

  cost-IsPositive : (a b : ℕ) → IsPositive (pos (5000 + a + b))
  cost-IsPositive a b = omega arith

  pub selfdestruct-AsksGas : AsksGas (Flow.selfdestruct f)
  unfolding Flow.selfdestruct
  selfdestruct-AsksGas = search (world_rules, cost-IsPositive) depth 40

pub msize-AsksGas : AsksGas Flow.msize
unfolding Flow.msize
msize-AsksGas = search progress_rules depth 24

pub gas_op-AsksGas : AsksGas Flow.gas_op
unfolding Flow.gas_op
gas_op-AsksGas = search progress_rules depth 24
