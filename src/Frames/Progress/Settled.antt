-- ===== src/Frames/Progress/Settled.antt =====
-- A round of src/executor.rs whose instruction is plain moves the frame on, or ends it.
use mathlib.Core.Option
use solenoid.Base.{
  subst, ℕ, zero, suc, ◌≡◌, refl, sym, ap, ◌⊎◌, inl, inr, Bool, true, false, some, List, [], ◌∷◌,
  get_elem?, arith, ◌==◌, if◌then◌else◌,
}
use solenoid.Base.Int.{ℤ, pos}
use solenoid.Primitives.{Primitives}
use solenoid.Outcome.{Outcome, ok, err, panic, unfinished, Done}
use solenoid.Gas
use solenoid.Gas.Bounds.{IsValid}
use solenoid.Decoder.{Instruction}
use solenoid.Machine.{Machine, Action, Handler, StepResult, ◌>>=◌, modify_evm, next}
use solenoid.Machine.Keeps.{Keeps}
use solenoid.Instr.Frame.{Frame}
use solenoid.Step.{op_of, handler, execute_instruction}
use solenoid.Frames.Report.{report_cost}
use solenoid.Frames.Loop.{
  is_invalid, report_step, halt_frame, charge_step, settle_step, fail_step, step,
}
use solenoid.Step.Progress.{Asked, Kept, Same, IsPositive}
use solenoid.Step.Progress.Flow.{IsStopped}
use solenoid.Step.Progress.Stops.{stopped_rules}
use solenoid.Step.Progress.Plain.{is_plain, handler-AsksGas}
use solenoid.Frames.Progress.{halt_frame-Overs, fail_step-Overs, halted-Overs, report_step-KeepsGas}
use solenoid.Frames.Progress.Round.{Moved, moved_over, charge_step-Moved}

refund-Keeps : Keeps IsStopped (modify_evm (λ evm. record evm { refund = evm.gas.refunded }))
unfolding modify_evm
refund-Keeps = record { at = λ s h. h }

report_cost-Keeps : (f : Frame) (cost back : ℤ) → Keeps IsStopped (report_cost f cost back)
unfolding report_cost
report_cost-Keeps f cost back = search stopped_rules depth 24

report_step-Keeps :
    (f : Frame) (cost : ℤ) (halts : Bool) → Keeps IsStopped (report_step f cost halts)
unfolding report_step
report_step-Keeps f cost halts = search (stopped_rules, refund-Keeps, report_cost-Keeps) depth 24

pub Same-IsValid : (s t : Machine) → Same s t → IsValid s.evm.gas → IsValid t.evm.gas
Same-IsValid s t p v = record {
  nonneg = rw p.used v.nonneg;
  within = rw (p.used, p.limit) v.within;
  small = rw p.limit v.small;
}

pub Same-remaining : (s t : Machine) → Same s t → Gas.remaining t.evm.gas ≡ Gas.remaining s.evm.gas
unfolding Gas.remaining
Same-remaining s t p = rw (p.used, p.limit) refl

moved_after : (s t : Machine) (r : Outcome Bool × Machine) → Same s t → Moved t r → Moved s r
moved_after s t (ok true, u) p h = tt
moved_after s t (ok false, u) p (inl stopped) = inl stopped
moved_after s t (ok false, u) p (inr (v, less)) = inr (v, rw (Same-remaining s t p) at less)
moved_after s t (err e, u) p h = tt
moved_after s t (panic, u) p h = tt
moved_after s t (unfinished, u) p h = h

abbrev charge_unless : Bool → Frame → ℤ → Action Bool
charge_unless b f cost = if b then halt_frame f else charge_step f cost

charge_unless-Moved :
    (b : Bool) (f : Frame) (cost : ℤ) (s : Machine)
    → (b ≡ true) ⊎ (IsPositive cost × IsValid s.evm.gas) ⊎ IsStopped s
    → Moved s (charge_unless b f cost s)
charge_unless-Moved true f cost s h = moved_over s (halt_frame f s) ((halt_frame-Overs f).at s)
charge_unless-Moved false f cost s (inl e) = absurd (ground (arith, e))
charge_unless-Moved false f cost s (inr h) = charge_step-Moved f cost s h

-- Behind the report.
reported :
    (f : Frame) (cost : ℤ) (s : Machine) (r : Outcome Done × Machine)
    → Kept s r
    → (IsStopped s → IsStopped r.1)
    → (is_invalid f ≡ true) ⊎ (IsPositive cost × IsValid s.evm.gas) ⊎ IsStopped s
    → Moved s (((λ _. r) >>= λ _. charge_unless (is_invalid f) f cost) s)
reported f cost s (ok tt, t) p k h = moved_after s t (charge_unless (is_invalid f) f cost t) p (
    charge_unless-Moved (is_invalid f) f cost t (elim h [
      | inl invalid ↦ inl invalid
      | inr (inl (positive, v)) ↦ inr (inl (positive, Same-IsValid s t p v))
      | inr (inr stopped) ↦ inr (inr (k stopped))
    ]))
reported f cost s (err e, t) p k h = tt
reported f cost s (panic, t) p k h = tt
reported f cost s (unfinished, t) p k h = p

settle_step-Moved :
    (f : Frame) (cost : ℤ) (s : Machine)
    → (is_invalid f ≡ true) ⊎ (IsPositive cost × IsValid s.evm.gas) ⊎ IsStopped s
    → Moved s (settle_step f (StepResult.done cost) s)
unfolding settle_step
settle_step-Moved f cost s h =
    reported f cost s (report_step f cost false s) ((report_step-KeepsGas f cost false).at s)
      ((report_step-Keeps f cost false).at s) h

-- INVALID, or a plain instruction.
abbrev pub IsPlain : Instruction → Type 0
IsPlain i = ((i.opcode.code == 0xfe) ≡ true) ⊎ (is_plain (op_of i.opcode.code) ≡ true)

abbrev pub ArePlain : List Instruction → Type 0
ArePlain [] = Unit {0}
ArePlain (i ∷ rest) = IsPlain i × ArePlain rest

pub IsPlain-get :
    (l : List Instruction) (n : ℕ) (i : Instruction)
    → ArePlain l
    → get_elem? l n ≡ some i
    → IsPlain i
IsPlain-get [] n i h e = absurd (ground (arith, e))
IsPlain-get (j ∷ l) zero i h e = subst IsPlain (ap (λ o. Option.get_or o j) e) h.0
IsPlain-get (j ∷ l) (suc n) i h e = IsPlain-get l n i h.1 e

module _ ⦃prim : Primitives⦄ (system_call : Frame → Handler) where
  invalid_run : (f : Frame) → is_invalid f ≡ true → execute_instruction system_call f ≡ next (pos 0)
  unfolding execute_instruction op_of handler
  invalid_run f e =
      let same : f.instruction.opcode.code ≡ 0xfe = ground (arith, e) in
      rw (execute_instruction, same) refl

  abbrev settled : Frame → Outcome StepResult × Machine → Outcome Bool × Machine
  settled f p =
      let (r, s') = p in
      elim r [
        | ok result ↦ settle_step f result s'
        | err _ ↦ fail_step f s'
        | panic ↦ (panic, s')
        | unfinished ↦ (unfinished, s')
      ]

  settled-Moved :
      (f : Frame) (s : Machine) (p : Outcome StepResult × Machine)
      → Asked s p
      → IsValid s.evm.gas
      → Moved s (settled f p)
  settled-Moved f s (ok (StepResult.done cost), t) h v =
      moved_after s t (settle_step f (StepResult.done cost) t) h.0 (
        settle_step-Moved f cost t (elim h.1 [
          | inl positive ↦ inr (inl (positive, Same-IsValid s t h.0 v))
          | inr stopped ↦ inr (inr stopped)
        ]))
  settled-Moved f s (ok (StepResult.halt cost), t) h v =
      moved_over s (settle_step f (StepResult.halt cost) t) ((halted-Overs f cost).at t)
  settled-Moved f s (err e, t) h v = moved_over s (fail_step f t) ((fail_step-Overs f).at t)
  settled-Moved f s (panic, t) h v = tt
  settled-Moved f s (unfinished, t) h v = h

  pub step-Moved :
      (f : Frame) (s : Machine)
      → IsPlain f.instruction
      → IsValid s.evm.gas
      → Moved s (step system_call f s)
  unfolding step next execute_instruction handler
  step-Moved f s (inl invalid) v =
      let moved : Machine = (next (pos 0) s).1 in
      let same : Same s moved = record { limit = refl; used = refl } in
      subst (λ p. Moved s (settled f p)) (ap (λ (h : Handler). h s) (sym (invalid_run f invalid)))
        (moved_after s moved (settle_step f (StepResult.done (pos 0)) moved) same
          (settle_step-Moved f (pos 0) moved (inl invalid)))
  step-Moved f s (inr plain) v =
      settled-Moved f s (execute_instruction system_call f s)
        ((handler-AsksGas system_call f (op_of f.instruction.opcode.code) plain).at s) v
