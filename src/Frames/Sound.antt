-- ===== src/Frames/Sound.antt =====
-- The frames of src/executor.rs keep the stack within its limit and the memory whole: the calls, the
-- creations and the loop.
pub mod Call
pub mod Create
pub mod Loop
pub mod Tree
use solenoid.Base.{ℕ, ◌*◌, ◌/◌, ◌+◌, ◌-◌, ◌%◌, ◌≡◌, refl, Bool, List, arith, length, length-resize}
use solenoid.Base.Int.{ℤ}
use solenoid.Primitives.{Primitives}
use solenoid.Types.{Address, Call as CallData, Context, AccountTouch}
use solenoid.Evm
use solenoid.Machine.{Machine, Action, modify_evm, on_evm}
use solenoid.Machine.Keeps.{Keeps}
use solenoid.Instr.Frame.{Frame}
use solenoid.Decoder.{Bytecode}
use solenoid.Frames.Report.{report_cost}
use solenoid.Frames.Inner.{Runner, Inner, run_inner, join_trace, extend_touches}
use solenoid.Frames.Warm.{warm_up}
use solenoid.Step.Sound.{IsSound, sound_rules, modify_evm-IsSound}

pub report_cost-IsSound : (f : Frame) (cost back : ℤ) → Keeps IsSound (report_cost f cost back)
unfolding report_cost
report_cost-IsSound f cost back = record { at = λ s h. omega (arith, h.stack_fits, h.aligned) }

pub run_inner-IsSound :
    (run : Runner) (code : Bytecode) (call : CallData) (ctx : Context) (gas : ℤ)
    → Keeps IsSound (run_inner run code call ctx gas)
unfolding run_inner
run_inner-IsSound run code call ctx gas = record {
  at = λ s h. omega (arith, h.stack_fits, h.aligned);
}

pub join_trace-IsSound : (inner : Inner) → Keeps IsSound (join_trace inner)
unfolding join_trace
join_trace-IsSound inner = record { at = λ s h. omega (arith, h.stack_fits, h.aligned) }

pub extend_touches-IsSound : (ts : List AccountTouch) → Keeps IsSound (extend_touches ts)
unfolding extend_touches
extend_touches-IsSound ts = modify_evm-IsSound _ (λ evm. refl) (λ evm. refl)

pub warm_up-IsSound : (a : Address) → Keeps IsSound (warm_up a)
unfolding warm_up
warm_up-IsSound a = search sound_rules depth 24

pub charge-IsSound : (cost : ℤ) → Keeps IsSound (on_evm (Evm.charge cost))
unfolding on_evm Evm.charge Evm.error
charge-IsSound cost = record { at = λ s h. ground arith }

pub ruleset frame_rules = (
  sound_rules, report_cost-IsSound, run_inner-IsSound, join_trace-IsSound, extend_touches-IsSound,
  warm_up-IsSound, charge-IsSound,
)
