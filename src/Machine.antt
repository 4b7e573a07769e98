-- ===== src/Machine.antt =====
-- The state that an instruction of src/executor.rs works on, the executor, the frame and the world
-- state, and the actions on it: `?` of the source is the bind, and what was written before an
-- error stays written.
pub mod Keeps
pub mod Run
use solenoid.Base.{ℕ, ◌+◌, Bool, Option, none, some, List, [], ◌++◌, ◌∷◌, if◌then◌else◌}
use solenoid.Base.Int.{ℤ, ltb_ℤ}
use solenoid.Outcome.{
  Report, Outcome, ok, err, panic, unfinished, or_panic, Done, ExecutorError, executor,
}
use solenoid.Word.{Word}
use solenoid.Gas
use solenoid.Types.{Header, AccountTouch}
use solenoid.Event.{Event, Tracer, push_event}
use solenoid.Ext.{Ext, Access}
use solenoid.Evm
use solenoid.Evm.{Evm, Method}

pub record Executor : Type 0 where
  pub header : Header
  pub tracer : Tracer
  pub ret : List ℕ

pub record Machine : Type 0 where
  pub exec : Executor
  pub evm : Evm
  pub ext : Ext

abbrev pub Action : Type 0 → Type 0
Action A = Machine → Outcome A × Machine

infixl 5 ◌>>=◌ ◌>>◌
abbrev pub ◌>>=◌ : {A B : Type 0} → Action A → (A → Action B) → Action B
◌>>=◌ m f s =
    let (r, s') = m s in
    elim r [
      | ok a ↦ f a s'
      | err e ↦ (err e, s')
      | panic ↦ (panic, s')
      | unfinished ↦ (unfinished, s')
    ]

abbrev pub ◌>>◌ : {A B : Type 0} → Action A → Action B → Action B
m >> k = m >>= λ _. k

abbrev pub pure : {A : Type 0} → A → Action A
pure a s = (ok a, s)

abbrev pub raise : {A : Type 0} → ExecutorError → Action A
raise e s = (err (executor e), s)

abbrev pub gets : {A : Type 0} → (Machine → A) → Action A
gets f s = (ok (f s), s)

-- The value of a crate's call that may panic.
unfoldable pub unwrap : {A : Type 0} → Option A → Action A
unwrap o s = (or_panic o, s)

-- A method of the frame, and of the world state.
unfoldable pub on_evm : {A : Type 0} → Method A → Action A
on_evm m s = let (r, evm) = m s.evm in (r, record s { evm = evm })

unfoldable pub on_ext : {A : Type 0} → Access A → Action A
on_ext m s = let (r, ext) = m s.ext in (r, record s { ext = ext })

unfoldable pub modify_evm : (Evm → Evm) → Action Done
modify_evm f s = (ok tt, record s { evm = f s.evm })

unfoldable pub modify_ext : (Ext → Ext) → Action Done
modify_ext f s = (ok tt, record s { ext = f s.ext })

unfoldable pub touch : AccountTouch → Action Done
unfolding modify_evm
touch t = modify_evm (Evm.touch t)

unfoldable pub trace : Event → Action Done
trace e s = (ok tt, record s { exec = record s.exec { tracer = push_event e s.exec.tracer } })

unfoldable pub set_ret : List ℕ → Action Done
set_ret bytes s = (ok tt, record s { exec = record s.exec { ret = bytes } })

unfoldable pub pop : Action Word
unfolding on_evm
pop = on_evm Evm.pop

unfoldable pub push : Word → Action Done
unfolding on_evm
push w = on_evm (Evm.push w)

unfoldable pub memory_expansion_cost : Action ℤ
memory_expansion_cost s =
    let (cost, evm) = Evm.memory_expansion_cost s.evm in (ok cost, record s { evm = evm })

-- What an instruction returns to the loop: the gas to charge, and whether it halts the frame.
pub data StepResult : Type 0 where
  done : ℤ → StepResult
  halt : ℤ → StepResult

abbrev pub Handler : Type 0
Handler = Action StepResult

-- `if evm.gas.remaining() < gas { return Ok(StepResult::Halt(gas)); }`
unfoldable pub need_gas : ℤ → Handler → Handler
need_gas gas rest s =
    if ltb_ℤ (Gas.remaining s.evm.gas) gas then (ok (StepResult.halt gas), s) else rest s

-- The end of `execute_instruction`: the next instruction, and the cost.
unfoldable pub next : ℤ → Handler
next gas s = (ok (StepResult.done gas), record s { evm = record s.evm { pc = s.evm.pc + 1 } })
