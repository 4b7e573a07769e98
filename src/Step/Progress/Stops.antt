-- ===== src/Step/Progress/Stops.antt =====
-- STOP, RETURN and REVERT stop the frame, and EXP asks for a charge of more than 0.
use solenoid.Base.{
  refl, Bool, true, false, ℕ, ◌≡◌, Option, none, some, arith, List, [], ◌∷◌, inl, inr, Bool-cases,
  length, slice, ltb,
}
use solenoid.Base.Int.{ℤ}
use solenoid.Primitives.{Primitives}
use solenoid.Event.{Event}
use solenoid.Evm
use solenoid.Evm.{Evm, error}
use solenoid.Machine.{
  Machine, Action, ◌>>=◌, modify_evm, next, pop, memory_expansion_cost, trace, set_ret, on_evm,
  unwrap,
}
use solenoid.Machine.Keeps.{Keeps, keeps_rules}
use solenoid.Instr.Frame.{Frame, pop_usize, expand, grow, read_memory}
use solenoid.Instr.Flow
use solenoid.Step.Progress.{AsksGas, Kept, KeepsGas, progress_rules, modify_evm-KeepsGas}
use solenoid.Step.Progress.Flow.{IsStopped, stopped-AsksGas}

-- An action that leaves the frame stopped.
record Stops {A : Type 0} (m : Action A) : Type 0 where
  at : (s : Machine) → IsStopped (m s).1

Stops-modify :
    {B : Type 0} (f : Evm → Evm) (rest : Action B)
    → ((evm : Evm) → (f evm).stopped ≡ true)
    → Keeps IsStopped rest
    → Stops (modify_evm f >>= λ _. rest)
unfolding modify_evm
Stops-modify f rest sets k = record { at = λ s. k.at (record s { evm = f s.evm }) (sets s.evm) }

pop_at : (l : List ℕ) (s : Machine) → s.evm.stack ≡ l → IsStopped s → IsStopped (pop s).1
unfolding pop on_evm Evm.pop error
pop_at [] s e h = rw e refl
pop_at (w ∷ l) s e h = rw e h

pub pop-Keeps : Keeps IsStopped pop
pop-Keeps = record { at = λ s h. pop_at s.evm.stack s refl h }

pub trace-Keeps : (e : Event) → Keeps IsStopped (trace e)
unfolding trace
trace-Keeps e = record { at = λ s h. h }

pub set_ret-Keeps : (bytes : List ℕ) → Keeps IsStopped (set_ret bytes)
unfolding set_ret
set_ret-Keeps bytes = record { at = λ s h. h }

pub cost-Keeps : Keeps IsStopped memory_expansion_cost
unfolding memory_expansion_cost Evm.memory_expansion_cost
cost-Keeps = record { at = λ s h. h }

pub next-Keeps : (gas : ℤ) → Keeps IsStopped (next gas)
unfolding next
next-Keeps gas = record { at = λ s h. h }

pub expand-Keeps : (end : ℕ) → Keeps IsStopped (expand end)
unfolding expand grow modify_evm
expand-Keeps end = record { at = λ s h. ground (arith, h) }

pub read_memory-Keeps : (from till : ℕ) → Keeps IsStopped (read_memory from till)
unfolding read_memory
read_memory-Keeps from till = record { at = λ s h. h }

cost-KeepsGas : KeepsGas memory_expansion_cost
unfolding memory_expansion_cost Evm.memory_expansion_cost
cost-KeepsGas = record { at = λ s. record { limit = refl; used = refl } }

pub next-KeepsGas : (gas : ℤ) → KeepsGas (next gas)
unfolding next
next-KeepsGas gas = record { at = λ s. record { limit = refl; used = refl } }

grow-KeepsGas : (end : ℕ) → KeepsGas (grow end)
unfolding grow modify_evm
grow-KeepsGas end = record {
  at = λ s. elim (Bool-cases (ltb Evm.allocation_sanity_limit end)) [
    | inl h ↦ rw (grow, h) tt
    | inr h ↦ rw (grow, h) (record { limit = refl; used = refl })
  ];
}

expand-KeepsGas : (end : ℕ) → KeepsGas (expand end)
unfolding expand
expand-KeepsGas end = record {
  at = λ s. elim (Bool-cases (ltb (length s.evm.memory) end)) [
    | inl h ↦ rw (expand, h) ((grow-KeepsGas end).at s)
    | inr h ↦ rw (expand, h) (record { limit = refl; used = refl })
  ];
}

read_memory_at :
    (o : Option (List ℕ)) (from till : ℕ) (s : Machine)
    → slice from till s.evm.memory ≡ o
    → Kept s (read_memory from till s)
unfolding read_memory unwrap
read_memory_at none from till s e = rw (read_memory, e) tt
read_memory_at (some bytes) from till s e =
    rw (read_memory, e) (record { limit = refl; used = refl })

read_memory-KeepsGas : (from till : ℕ) → KeepsGas (read_memory from till)
read_memory-KeepsGas from till = record {
  at = λ s. read_memory_at (slice from till s.evm.memory) from till s refl;
}

set_stopped-KeepsGas :
    (r : Bool) → KeepsGas (modify_evm (λ evm. record evm { stopped = true; reverted = r }))
set_stopped-KeepsGas r = modify_evm-KeepsGas _ λ evm. refl

set_end-KeepsGas :
    (n : ℕ) → KeepsGas (modify_evm (λ evm. record evm { pc = n; stopped = true; reverted = false }))
set_end-KeepsGas n = modify_evm-KeepsGas _ λ evm. refl

Stops-set :
    {B : Type 0} (r : Bool) (rest : Action B)
    → Keeps IsStopped rest
    → Stops (modify_evm (λ evm. record evm { stopped = true; reverted = r }) >>= λ _. rest)
Stops-set r rest k = Stops-modify _ rest (λ evm. refl) k

Stops-end :
    {B : Type 0} (n : ℕ) (rest : Action B)
    → Keeps IsStopped rest
    → Stops
        (modify_evm (λ evm. record evm { pc = n; stopped = true; reverted = false }) >>= λ _. rest)
Stops-end n rest k = Stops-modify _ rest (λ evm. refl) k

pub ruleset stopped_rules = (
  keeps_rules, pop-Keeps, trace-Keeps, set_ret-Keeps, cost-Keeps, next-Keeps, expand-Keeps,
  read_memory-Keeps,
)

ruleset ended_rules = (
  progress_rules, cost-KeepsGas, next-KeepsGas, expand-KeepsGas, read_memory-KeepsGas,
  set_stopped-KeepsGas, set_end-KeepsGas,
)

stop-Stops : (f : Frame) → Stops (Flow.stop f)
unfolding Flow.stop
stop-Stops f = search (stopped_rules, Stops-end) depth 30

stop-KeepsGas : (f : Frame) → KeepsGas (Flow.stop f)
unfolding Flow.stop
stop-KeepsGas f = search ended_rules depth 30

pub stop-AsksGas : (f : Frame) → AsksGas (Flow.stop f)
stop-AsksGas f = stopped-AsksGas (Flow.stop f) (stop-KeepsGas f) (stop-Stops f).at

module _ ⦃prim : Primitives⦄ (f : Frame) where
  pop_usize-Keeps : Keeps IsStopped pop_usize
  unfolding pop_usize
  pop_usize-Keeps = search stopped_rules

  return_op-Stops : (r : Bool) → Stops (Flow.return_op f r)
  unfolding Flow.return_op
  return_op-Stops r = search (stopped_rules, pop_usize-Keeps, Stops-set) depth 40

  return_op-KeepsGas : (r : Bool) → KeepsGas (Flow.return_op f r)
  unfolding Flow.return_op
  return_op-KeepsGas r = search ended_rules depth 40

  pub return_op-AsksGas : (r : Bool) → AsksGas (Flow.return_op f r)
  return_op-AsksGas r =
      stopped-AsksGas (Flow.return_op f r) (return_op-KeepsGas r) (return_op-Stops r).at
