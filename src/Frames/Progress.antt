-- ===== src/Frames/Progress.antt =====
-- One round of the loop of `execute_with_context` in src/executor.rs, by what its instruction asks
-- for: it ends the frame, stops it, or uses gas.
pub mod Round
pub mod Settled
pub mod Ends
use solenoid.Base.{
  ℕ, ◌+◌, ◌≡◌, refl, ap, ◌∙◌, ◌⊎◌, inl, inr, Bool, true, false, not, Bool-cases, arith, ◌==◌, ◌||◌,
  ◌&&◌, if◌then◌else◌,
}
use solenoid.Base.Int.{ℤ, pos, ◌≤ℤ◌, ◌+ℤ◌, ◌-ℤ◌, ltb_ℤ, int_laws}
use solenoid.Base.I64.{add_i64, add_i64_exact}
use solenoid.Primitives.{Primitives}
use solenoid.Outcome.{Outcome, ok, err, panic, unfinished, Done}
use solenoid.Gas
use solenoid.Gas.{Gas}
use solenoid.Gas.Bounds.{IsValid, remaining_exact}
use solenoid.Evm
use solenoid.Evm.{Evm}
use solenoid.Machine.{Machine, Action, StepResult, ◌>>=◌, ◌>>◌, pure, modify_evm, trace}
use solenoid.Instr.Frame.{Frame}
use solenoid.Frames.Loop.{
  is_invalid, stop_reverted, expect, sub_all, charge_all, is_too_much, report_step, halt_frame,
  charge_step, settle_step, fail_step,
}
use solenoid.Frames.Report.{report_cost}
use solenoid.Step.Progress.{
  Ended, Kept, KeepsGas, Same, IsPositive, progress_rules, modify_evm-KeepsGas,
}

-- An action that ends.
pub record Finishes {A : Type 0} (m : Action A) : Type 0 where
  pub at : (s : Machine) → Ended (m s).0

kept_ended : {A : Type 0} (s : Machine) (r : Outcome A × Machine) → Kept s r → Ended r.0
kept_ended s (ok a, t) p = tt
kept_ended s (err e, t) p = tt
kept_ended s (panic, t) p = tt
kept_ended s (unfinished, t) p = p

-- An action that ends the frame, when it succeeds.
abbrev pub IsOver : Outcome Bool × Machine → Type 0
IsOver (ok over, t) = over ≡ true
IsOver (err e, t) = Unit {0}
IsOver (panic, t) = Unit {0}
IsOver (unfinished, t) = ⊥

pub record Overs (m : Action Bool) : Type 0 where
  pub at : (s : Machine) → IsOver (m s)

module _ {A : Type 0} where
  pub KeepsGas-Finishes : (m : Action A) → KeepsGas m → Finishes m
  KeepsGas-Finishes m k = record { at = λ s. kept_ended s (m s) (k.at s) }

  over_bind :
      (r : Outcome A × Machine) (f : A → Action Bool)
      → Ended r.0
      → ((a : A) → Overs (f a))
      → IsOver (((λ _. r) >>= f) r.1)
  over_bind (ok a, t) f h k = (k a).at t
  over_bind (err e, t) f h k = tt
  over_bind (panic, t) f h k = tt
  over_bind (unfinished, t) f h k = h

  pub Overs-bind :
      (m : Action A) (f : A → Action Bool) → Finishes m → ((a : A) → Overs (f a)) → Overs (m >>= f)
  Overs-bind m f h k = record { at = λ s. over_bind (m s) f (h.at s) k }

Overs-pure : Overs (pure true)
Overs-pure = record { at = λ s. refl }

expect_ended : (r : Outcome Done) → Ended r → Ended (expect r)
unfolding expect
expect_ended (ok a) h = tt
expect_ended (err e) h = tt
expect_ended panic h = tt
expect_ended unfinished h = h

charge_ended : (g : Gas) (cost : ℤ) → Ended (Gas.charge g cost).0
unfolding Gas.charge
charge_ended g cost = elim (Bool-cases (ltb_ℤ (Gas.remaining g) cost)) [
  | inl h ↦ rw (Gas.charge, h) tt
  | inr h ↦ rw (Gas.charge, h) tt
]

sub_all-Finishes : Finishes sub_all
unfolding sub_all
sub_all-Finishes = record {
  at = λ s.
      expect_ended (Gas.charge s.evm.gas (Gas.remaining s.evm.gas)).0
        (charge_ended s.evm.gas (Gas.remaining s.evm.gas));
}

charge_all-Finishes : Finishes charge_all
unfolding charge_all Evm.charge Gas.charge Evm.error
charge_all-Finishes = record {
  at = λ s. elim (Bool-cases (ltb_ℤ (Gas.remaining s.evm.gas) (Gas.remaining s.evm.gas))) [
    | inl h ↦ rw (charge_all, Evm.charge, Gas.charge, h) tt
    | inr h ↦ rw (charge_all, Evm.charge, Gas.charge, h) tt
  ];
}

pub stop_reverted-KeepsGas : KeepsGas (modify_evm stop_reverted)
stop_reverted-KeepsGas = modify_evm-KeepsGas stop_reverted λ evm. refl

refund-KeepsGas : KeepsGas (modify_evm (λ evm. record evm { refund = evm.gas.refunded }))
refund-KeepsGas = modify_evm-KeepsGas _ λ evm. refl

ruleset round_rules = (progress_rules, stop_reverted-KeepsGas, refund-KeepsGas)

ruleset over_rules =
    (Overs-bind, Overs-pure, KeepsGas-Finishes, sub_all-Finishes, charge_all-Finishes, round_rules)

pub halt_frame-Overs : (f : Frame) → Overs (halt_frame f)
unfolding halt_frame
halt_frame-Overs f = search over_rules depth 24

pub fail_step-Overs : (f : Frame) → Overs (fail_step f)
unfolding fail_step
fail_step-Overs f = search over_rules depth 24

report_cost-KeepsGas : (f : Frame) (cost back : ℤ) → KeepsGas (report_cost f cost back)
unfolding report_cost
report_cost-KeepsGas f cost back = search round_rules depth 24

pub report_step-KeepsGas :
    (f : Frame) (cost : ℤ) (halts : Bool) → KeepsGas (report_step f cost halts)
unfolding report_step
report_step-KeepsGas f cost halts = search (round_rules, report_cost-KeepsGas) depth 24

pub halted-Overs : (f : Frame) (cost : ℤ) → Overs (settle_step f (StepResult.halt cost))
unfolding settle_step
halted-Overs f cost = search (over_rules, report_step-KeepsGas, halt_frame-Overs) depth 24
