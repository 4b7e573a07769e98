-- ===== src/Step/Sound.antt =====
-- The stack never passes its limit, and the memory is always whole words of 32 bytes: the rules
-- for the actions that the handlers of src/executor.rs are made of.
pub mod Arith
pub mod Bits
pub mod Env
pub mod Block
pub mod Memory
pub mod Storage
pub mod Flow
pub mod Stack
use solenoid.Base.{
  ℕ, zero, suc, ◌+◌, ◌-◌, ◌%◌, ◌≤◌, ◌≡◌, refl, Bool, Option, none, some, List, [], ◌∷◌, arith,
  length, set, get_or, length-set, resize, length-resize, copy_into, length-copy_into, slice,
  if◌then◌else◌,
}
use solenoid.Base.Int.{ℤ}
use solenoid.Outcome.{Outcome, ok, err, panic, Report, Done}
use solenoid.Primitives.{Primitives}
use solenoid.Instr.Frame.{padded, grow, expand, read_memory, write_memory, pop_usize}
use solenoid.Instr.Storage.{or_halt}
use solenoid.Evm
use solenoid.Evm.{Evm, Method, stack_limit, error}
use solenoid.Ext.{Ext, Access}
use solenoid.Machine
use solenoid.Machine.{
  Machine, Action, Handler, ◌>>=◌, ◌>>◌, on_evm, on_ext, modify_evm, modify_ext, touch, trace,
  set_ret, pop, push, memory_expansion_cost, next,
}
use solenoid.Machine.Keeps.{Keeps, keeps_rules}
use solenoid.Types.{AccountTouch}
use solenoid.Event.{Event}

pub record IsSound (s : Machine) : Type 0 where
  pub stack_fits : length s.evm.stack ≤ stack_limit
  pub aligned : length s.evm.memory % 32 ≡ 0

-- A method of the frame that keeps the two measures, or pops.
pop_at : (l : List ℕ) (s : Machine) → s.evm.stack ≡ l → IsSound s → IsSound (pop s).1
unfolding pop Evm.pop
pop_at [] s e h = rw e (omega (arith, h.stack_fits, h.aligned))
pop_at (w ∷ l) s e h =
    let fits : length (w ∷ l) ≤ stack_limit = rw e at h.stack_fits in
    rw e (omega (arith, fits, h.aligned))

pub pop-IsSound : Keeps IsSound pop
pop-IsSound = record { at = λ s h. pop_at s.evm.stack s refl h }

pub push-IsSound : (w : ℕ) → Keeps IsSound (push w)
unfolding push Evm.push
push-IsSound w = record { at = λ s h. ground arith }

module _ {A : Type 0} where
  pub on_ext-IsSound : (m : Access A) → Keeps IsSound (on_ext m)
  unfolding on_ext
  on_ext-IsSound m = record { at = λ s h. omega (arith, h.stack_fits, h.aligned) }

  pub or_halt-IsSound : (m : Access A) → Keeps IsSound (or_halt m)
  unfolding or_halt on_evm error
  or_halt-IsSound m = record { at = λ s h. ground arith }

  pub error-IsSound : (e : Report) → Keeps IsSound (on_evm (error {A = A} e))
  unfolding on_evm error
  error-IsSound e = record { at = λ s h. omega (arith, h.stack_fits, h.aligned) }

pub peek-IsSound : (n : ℕ) → Keeps IsSound (on_evm (Evm.peek n))
unfolding on_evm Evm.peek
peek-IsSound n = record { at = λ s h. ground arith }

pub modify_ext-IsSound : (f : Ext → Ext) → Keeps IsSound (modify_ext f)
unfolding modify_ext
modify_ext-IsSound f = record { at = λ s h. omega (arith, h.stack_fits, h.aligned) }

pub touch-IsSound : (t : AccountTouch) → Keeps IsSound (touch t)
unfolding touch
touch-IsSound t = record { at = λ s h. omega (arith, h.stack_fits, h.aligned) }

pub trace-IsSound : (e : Event) → Keeps IsSound (trace e)
unfolding trace
trace-IsSound e = record { at = λ s h. omega (arith, h.stack_fits, h.aligned) }

pub set_ret-IsSound : (bytes : List ℕ) → Keeps IsSound (set_ret bytes)
unfolding set_ret
set_ret-IsSound bytes = record { at = λ s h. omega (arith, h.stack_fits, h.aligned) }

pub memory_expansion_cost-IsSound : Keeps IsSound memory_expansion_cost
unfolding memory_expansion_cost Evm.memory_expansion_cost
memory_expansion_cost-IsSound = record { at = λ s h. omega (arith, h.stack_fits, h.aligned) }

pub next-IsSound : (gas : ℤ) → Keeps IsSound (next gas)
unfolding next
next-IsSound gas = record { at = λ s h. omega (arith, h.stack_fits, h.aligned) }

-- Writes of the frame that leave the stack and the memory alone.
pub modify_evm-IsSound :
    (f : Evm → Evm)
    → ((evm : Evm) → (f evm).stack ≡ evm.stack)
    → ((evm : Evm) → (f evm).memory ≡ evm.memory)
    → Keeps IsSound (modify_evm f)
unfolding modify_evm
modify_evm-IsSound f same_stack same_memory = record {
  at = λ s h. record {
    stack_fits = rw (same_stack s.evm) h.stack_fits;
    aligned = rw (same_memory s.evm) h.aligned;
  };
}

pub grow-IsSound : (end : ℕ) → Keeps IsSound (grow end)
unfolding grow
grow-IsSound end = record { at = λ s h. ground (arith, length-resize (padded end) 0 s.evm.memory) }

pub expand-IsSound : (end : ℕ) → Keeps IsSound (expand end)
unfolding expand
expand-IsSound end = record {
  at = λ s h. ground (arith, length-resize (padded end) 0 s.evm.memory);
}

pub read_memory-IsSound : (from till : ℕ) → Keeps IsSound (read_memory from till)
unfolding read_memory
read_memory-IsSound from till = record { at = λ s h. h }

write_at :
    (r : Option (List ℕ)) (from till : ℕ) (part : List ℕ) (s : Machine)
    → copy_into from till part s.evm.memory ≡ r
    → IsSound s
    → IsSound (write_memory from till part s).1
unfolding write_memory
write_at none from till part s e h = rw e h
write_at (some bytes) from till part s e h =
    let same = length-copy_into from till part s.evm.memory bytes e in
    rw e (omega (arith, same, h.stack_fits, h.aligned))

pub write_memory-IsSound :
    (from till : ℕ) (part : List ℕ) → Keeps IsSound (write_memory from till part)
write_memory-IsSound from till part = record {
  at = λ s h. write_at (copy_into from till part s.evm.memory) from till part s refl h;
}

pub ruleset base_rules = (
  keeps_rules, pop-IsSound, push-IsSound, on_ext-IsSound, or_halt-IsSound, error-IsSound,
  peek-IsSound, modify_ext-IsSound, touch-IsSound, trace-IsSound, set_ret-IsSound,
  memory_expansion_cost-IsSound, next-IsSound, grow-IsSound, expand-IsSound, read_memory-IsSound,
  write_memory-IsSound,
)

module _ ⦃prim : Primitives⦄ where
  pub pop_usize-IsSound : Keeps IsSound pop_usize
  unfolding pop_usize
  pop_usize-IsSound = search base_rules

pub ruleset sound_rules = (base_rules, pop_usize-IsSound)
