-- ===== src/Frames/Sound/Loop.antt =====
-- The loop of a frame of src/executor.rs keeps the stack within its limit and the memory whole, if
-- the calls and creations do.
use solenoid.Base.{ℕ, zero, suc, ◌≡◌, refl, Bool, true, false, Option, none, some, List, [], arith}
use solenoid.Base.Int.{ℤ}
use solenoid.Primitives.{Primitives}
use solenoid.Outcome.{Outcome, ok, err, panic, unfinished}
use solenoid.Types.{Call, Context}
use solenoid.Decoder.{Bytecode, Instruction}
use solenoid.Evm
use solenoid.Evm.{Evm}
use solenoid.Machine.{Machine, Action, Handler, StepResult, modify_evm}
use solenoid.Machine.Keeps.{Keeps, Keeps-bind, Keeps-pure}
use solenoid.Instr.Frame.{Frame}
use solenoid.Step.{execute_instruction}
use solenoid.Frames.Loop.{
  stop_reverted, sub_all, charge_all, is_too_much, report_step, halt_frame, charge_step,
  settle_step, fail_step, step, current, unless_over, finish, begin, steps, execute_with_context,
}
use solenoid.Step.Sound.{IsSound, modify_evm-IsSound}
use solenoid.Step.Invariant.{execute_instruction-IsSound}
use solenoid.Frames.Sound.{frame_rules}

stop_reverted-IsSound : Keeps IsSound (modify_evm stop_reverted)
stop_reverted-IsSound = modify_evm-IsSound _ (λ evm. refl) (λ evm. refl)

note_refund-IsSound :
    Keeps IsSound (modify_evm (λ (evm : Evm). record evm { refund = evm.gas.refunded }))
note_refund-IsSound = modify_evm-IsSound _ (λ evm. refl) (λ evm. refl)

sub_all-IsSound : Keeps IsSound sub_all
unfolding sub_all
sub_all-IsSound = record { at = λ s h. omega (arith, h.stack_fits, h.aligned) }

charge_all-IsSound : Keeps IsSound charge_all
unfolding charge_all Evm.charge Evm.error
charge_all-IsSound = record { at = λ s h. ground arith }

is_too_much-IsSound : (cost : ℤ) → Keeps IsSound (is_too_much cost)
unfolding is_too_much Evm.charge Evm.error
is_too_much-IsSound cost = record { at = λ s h. ground arith }

report_step-IsSound :
    (f : Frame) (cost : ℤ) (halts : Bool) → Keeps IsSound (report_step f cost halts)
unfolding report_step
report_step-IsSound f cost halts = search (frame_rules, note_refund-IsSound) depth 24

halt_frame-IsSound : (f : Frame) → Keeps IsSound (halt_frame f)
unfolding halt_frame
halt_frame-IsSound f = search (frame_rules, sub_all-IsSound, stop_reverted-IsSound) depth 24

charge_step-IsSound : (f : Frame) (cost : ℤ) → Keeps IsSound (charge_step f cost)
unfolding charge_step
charge_step-IsSound f cost =
    search (frame_rules, is_too_much-IsSound, stop_reverted-IsSound) depth 24

ruleset step_rules = (
  frame_rules, stop_reverted-IsSound, report_step-IsSound, halt_frame-IsSound, charge_step-IsSound,
  charge_all-IsSound,
)

settle_step-IsSound : (f : Frame) (r : StepResult) → Keeps IsSound (settle_step f r)
unfolding settle_step
settle_step-IsSound f (StepResult.done cost) = search step_rules depth 24
settle_step-IsSound f (StepResult.halt cost) = search step_rules depth 24

fail_step-IsSound : (f : Frame) → Keeps IsSound (fail_step f)
unfolding fail_step
fail_step-IsSound f = search step_rules depth 24

finish-IsSound : (code : Bytecode) (ctx : Context) → Keeps IsSound (finish code ctx)
unfolding finish
finish-IsSound code ctx = search frame_rules depth 24

begin-IsSound : (call : Call) (ctx : Context) → Keeps IsSound (begin call ctx)
unfolding begin
begin-IsSound call ctx = search frame_rules depth 24

unless_over-IsSound :
    (rest : Action (List ℕ))
    → Keeps IsSound rest
    → (over : Bool) → Keeps IsSound (unless_over rest over)
unless_over-IsSound rest k true = Keeps-pure []
unless_over-IsSound rest k false = k

module _ ⦃prim : Primitives⦄ (system_call : Frame → Handler)
    (keep : (f : Frame) → Keeps IsSound (system_call f)) where
  settled :
      (f : Frame) (s : Machine) (r : Outcome StepResult)
      → (execute_instruction system_call f s).0 ≡ r
      → IsSound s
      → IsSound (step system_call f s).1
  unfolding step
  settled f s (ok result) e h =
      rw (step, e)
        ((settle_step-IsSound f result).at _ (execute_instruction-IsSound system_call keep f s h))
  settled f s (err x) e h =
      rw (step, e) ((fail_step-IsSound f).at _ (execute_instruction-IsSound system_call keep f s h))
  settled f s panic e h = rw (step, e) (execute_instruction-IsSound system_call keep f s h)
  settled f s unfinished e h = rw (step, e) (execute_instruction-IsSound system_call keep f s h)

  step-IsSound : (f : Frame) → Keeps IsSound (step system_call f)
  step-IsSound f = record { at = λ s h. settled f s _ refl h }

  steps_at :
      (fuel : ℕ) (code : Bytecode) (call : Call) (ctx : Context) (s : Machine)
      → (o : Option Instruction) → current code s ≡ o
      → Keeps IsSound (steps system_call fuel code call ctx)
      → IsSound s
      → IsSound (steps system_call (suc fuel) code call ctx s).1
  unfolding steps
  steps_at fuel code call ctx s none e rest h = rw (steps, e) ((finish-IsSound code ctx).at s h)
  steps_at fuel code call ctx s (some i) e rest h =
      rw (steps, e)
        ((Keeps-bind
            (step system_call (record { code = code; call = call; ctx = ctx; instruction = i }))
            (unless_over (steps system_call fuel code call ctx)) (step-IsSound _)
            (unless_over-IsSound _ rest)).at
          s h)

  steps-IsSound :
      (fuel : ℕ) (code : Bytecode) (call : Call) (ctx : Context)
      → Keeps IsSound (steps system_call fuel code call ctx)
  unfolding steps
  steps-IsSound zero code call ctx = record { at = λ s h. h }
  steps-IsSound (suc fuel) code call ctx = record {
    at = λ s h.
        steps_at fuel code call ctx s (current code s) refl (steps-IsSound fuel code call ctx) h;
  }

  pub execute_with_context-IsSound :
      (fuel : ℕ) (code : Bytecode) (call : Call) (ctx : Context)
      → Keeps IsSound (execute_with_context system_call fuel code call ctx)
  unfolding execute_with_context
  execute_with_context-IsSound fuel code call ctx =
      search (frame_rules, begin-IsSound, stop_reverted-IsSound, steps-IsSound) depth 24
