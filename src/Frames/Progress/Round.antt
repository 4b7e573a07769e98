-- ===== src/Frames/Progress/Round.antt =====
-- A round of the loop of src/executor.rs that does not end the frame uses gas, or has stopped it.
use solenoid.Base.{
  ◌≡◌, refl, ap, ◌∙◌, ◌⊎◌, inl, inr, Bool, true, false, Bool-cases, arith, ◌==◌, if◌then◌else◌,
}
use solenoid.Base.Int.{ℤ, pos, ◌≤ℤ◌, ◌+ℤ◌, ◌-ℤ◌, ltb_ℤ, int_laws}
use solenoid.Base.I64.{add_i64, add_i64_exact}
use solenoid.Outcome.{Outcome, ok, err, panic, unfinished, Done, executor, out_of_gas}
use solenoid.Gas
use solenoid.Gas.{Gas}
use solenoid.Gas.Bounds.{IsValid, remaining_exact}
use solenoid.Evm
use solenoid.Evm.{Evm}
use solenoid.Event.{EventData, HaltReason, event}
use solenoid.Machine.Run.{run_ok}
use solenoid.Machine.{Machine, Action, ◌>>◌, pure, modify_evm, trace}
use solenoid.Instr.Frame.{Frame}
use solenoid.Frames.Loop.{is_too_much, charge_step, stop_reverted}
use solenoid.Step.Progress.{IsPositive}
use solenoid.Frames.Progress.{IsOver}

-- The frame is stopped, or has at least as much gas left as `n`.
abbrev pub IsLive : Machine → Type 0
IsLive s = IsValid s.evm.gas

-- After a round that does not end the frame, it is stopped, or has less gas left.
abbrev pub Moved : Machine → Outcome Bool × Machine → Type 0
Moved s (ok true, t) = Unit {0}
Moved s (ok false, t) =
    (t.evm.stopped ≡ true)
    ⊎ (IsValid t.evm.gas × (Gas.remaining t.evm.gas +ℤ pos 1 ≤ℤ Gas.remaining s.evm.gas))
Moved s (err e, t) = Unit {0}
Moved s (panic, t) = Unit {0}
Moved s (unfinished, t) = ⊥

pub moved_over : (s : Machine) (r : Outcome Bool × Machine) → IsOver r → Moved s r
moved_over s (ok true, t) h = tt
moved_over s (ok false, t) h = absurd (ground (arith, h))
moved_over s (err e, t) h = tt
moved_over s (panic, t) h = tt
moved_over s (unfinished, t) h = h

moved_if :
    (b : Bool) (s t : Machine)
    → (t.evm.stopped ≡ true)
      ⊎ (IsValid t.evm.gas × (Gas.remaining t.evm.gas +ℤ pos 1 ≤ℤ Gas.remaining s.evm.gas))
    → Moved s (ok b, t)
moved_if true s t h = tt
moved_if false s t h = h

abbrev charged : ℤ → Machine → Machine
charged cost s = record s {
  evm = record s.evm { gas = record s.evm.gas { used = add_i64 s.evm.gas.used cost } };
}

-- A positive charge that the gas covers.
charged_less :
    (cost : ℤ) (s : Machine)
    → IsPositive cost
    → IsValid s.evm.gas
    → ltb_ℤ (Gas.remaining s.evm.gas) cost ≡ false
    → IsValid (charged cost s).evm.gas
      × (Gas.remaining (charged cost s).evm.gas +ℤ pos 1 ≤ℤ Gas.remaining s.evm.gas)
charged_less cost s p v covered =
    let g = s.evm.gas in
    let exact = remaining_exact g v in
    let c : cost ≤ℤ Gas.remaining g = ground (arith, covered) in
    let c' : cost ≤ℤ g.limit -ℤ g.used = rw exact at c in
    let sum : add_i64 g.used cost ≡ g.used +ℤ cost =
      add_i64_exact g.used cost (omega (int_laws, v.nonneg, v.within, v.small, p)) in
    let g' : Gas = record g { used = g.used +ℤ cost } in
    let valid : IsValid g' = omega (int_laws, v.nonneg, v.within, v.small, p) in
    rw sum (valid, rw (remaining_exact g' valid, exact) (omega (int_laws, p)))

-- `Evm::gas` and `is_too_much` behind the charge of the gas.
abbrev evm_after : Evm → Outcome Done × Gas → Outcome Done × Evm
evm_after evm p =
    let (r, gas) = p in
    let evm' : Evm = record evm { gas = gas } in
    elim r [
      | ok _ ↦ (ok tt, evm')
      | err e ↦ Evm.error e evm'
      | panic ↦ (panic, evm')
      | unfinished ↦ (unfinished, evm')
    ]

abbrev tried_after : Machine → Outcome Done × Evm → Outcome Bool × Machine
tried_after s p =
    let (r, evm) = p in
    let s' : Machine = record s { evm = evm } in
    elim r [
      | ok _ ↦ (ok false, s')
      | err _ ↦ (ok true, s')
      | panic ↦ (panic, s')
      | unfinished ↦ (unfinished, s')
    ]

is_too_much_lem :
    (cost : ℤ) (s : Machine)
    → is_too_much cost s ≡ tried_after s (evm_after s.evm (Gas.charge s.evm.gas cost))
unfolding is_too_much Evm.charge
is_too_much_lem cost s = refl

covered_run :
    (cost : ℤ) (s : Machine)
    → ltb_ℤ (Gas.remaining s.evm.gas) cost ≡ false
    → is_too_much cost s ≡ (ok false, charged cost s)
unfolding Gas.charge
covered_run cost s covered =
    let paid : Gas.charge s.evm.gas cost ≡ (ok tt, (charged cost s).evm.gas) =
      rw (Gas.charge, covered) refl in
    is_too_much_lem cost s ∙ ap (λ p. tried_after s (evm_after s.evm p)) paid

short_run :
    (cost : ℤ) (s : Machine)
    → ltb_ℤ (Gas.remaining s.evm.gas) cost ≡ true
    → (is_too_much cost s).0 ≡ ok true
unfolding Gas.charge Evm.error
short_run cost s short =
    let g = (Gas.charge s.evm.gas cost).1 in
    let broke : Gas.charge s.evm.gas cost ≡ (err (executor out_of_gas), g) =
      rw (Gas.charge, short) refl in
    ap (λ r. r.0) (is_too_much_lem cost s) ∙ ap (λ p. (tried_after s (evm_after s.evm p)).0) broke

-- What `charge_step` does once the charge is tried.
abbrev tried : Frame → Bool → Action Bool
tried f broke =
    if broke
    then (do
      modify_evm stop_reverted
      trace (event (EventData.halt HaltReason.out_of_gas) f.ctx.depth true)
      pure true)
    else pure (f.instruction.opcode.code == 0xff)

pub charge_step-Moved :
    (f : Frame) (cost : ℤ) (s : Machine)
    → (IsPositive cost × IsValid s.evm.gas) ⊎ (s.evm.stopped ≡ true)
    → Moved s (charge_step f cost s)
unfolding charge_step modify_evm trace
charge_step-Moved f cost s h = elim (Bool-cases (ltb_ℤ (Gas.remaining s.evm.gas) cost)) [
  | inl out ↦
      let t = (is_too_much cost s).1 in
      rw
        (run_ok (is_too_much cost) (tried f) s t true
          (ap (λ (o : Outcome Bool). (o, t)) (short_run cost s out)))
        tt
  | inr covered ↦
      rw (run_ok (is_too_much cost) (tried f) s (charged cost s) false (covered_run cost s covered))
        (moved_if (f.instruction.opcode.code == 0xff) s (charged cost s) (elim h [
          | inl (p, v) ↦ inr (charged_less cost s p v covered)
          | inr stopped ↦ inl stopped
        ]))
]
