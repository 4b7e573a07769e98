-- ===== src/Frames/Progress/Ends.antt =====
-- A frame of src/executor.rs that has plain instructions only ends within its gas.
use solenoid.Base.{
  ℕ, zero, suc, ◌<◌, ◌≡◌, ◌≢◌, refl, subst, ◌⊎◌, inl, inr, Bool, true, false, Bool-cases, Option,
  some, none, List, [], get_elem?, ltb, arith, if◌then◌else◌,
}
use solenoid.Base.Int.{pos, ◌≤ℤ◌, ◌+ℤ◌, +ℤ_parts, int_laws}
use solenoid.Primitives.{Primitives}
use solenoid.Outcome.{Outcome, ok, err, panic, unfinished, Done}
use solenoid.Types.{Address, Call, Context}
use solenoid.Gas
use solenoid.Gas.Bounds.{IsValid, remaining_exact}
use solenoid.Decoder.{Bytecode, Instruction}
use solenoid.Machine.{Machine, Action, Handler, ◌>>=◌, ◌>>◌, pure, modify_evm}
use solenoid.Evm.{call_depth_limit}
use solenoid.Instr.Frame.{Frame}
use solenoid.Precompiles.Interface.{Crates}
use solenoid.Frames.{run}
use solenoid.Frames.Inner.{enter}
use solenoid.Frames.System.{system_call}
use solenoid.Frames.Warm.{warm_up}
use solenoid.Frames.Loop.{
  current, step, steps, finish, begin, unless_over, execute_with_context, stop_reverted,
}
use solenoid.Step.Progress.{Ended, Kept, KeepsGas, Same, progress_rules}
use solenoid.Frames.Progress.{KeepsGas-Finishes}
use solenoid.Frames.Progress.Round.{Moved}
use solenoid.Frames.Progress.Settled.{
  ArePlain, IsPlain-get, step-Moved, Same-IsValid, Same-remaining,
}

finish-KeepsGas : (code : Bytecode) (ctx : Context) → KeepsGas (finish code ctx)
unfolding finish
finish-KeepsGas code ctx = search progress_rules depth 24

warm_up-KeepsGas : (a : Address) → KeepsGas (warm_up a)
unfolding warm_up
warm_up-KeepsGas a = search progress_rules depth 24

begin-KeepsGas : (call : Call) (ctx : Context) → KeepsGas (begin call ctx)
unfolding begin
begin-KeepsGas call ctx = search (progress_rules, warm_up-KeepsGas) depth 24

-- The rounds that are left suffice: the frame is stopped, or they are more than the gas by 2.
abbrev IsFueled : ℕ → Machine → Type 0
IsFueled fuel s =
    ((s.evm.stopped ≡ true) × (0 < fuel))
    ⊎ (IsValid s.evm.gas × (Gas.remaining s.evm.gas +ℤ pos 2 ≤ℤ pos fuel))

-- What follows a round.
rest_ends :
    (fuel : ℕ) (s : Machine) (r : Outcome Bool × Machine) (rest : Action (List ℕ))
    → Moved s r
    → Gas.remaining s.evm.gas +ℤ pos 2 ≤ℤ pos (suc fuel)
    → pos 0 ≤ℤ Gas.remaining s.evm.gas
    → ((t : Machine) → IsFueled fuel t → Ended (rest t).0)
    → Ended (((λ _. r) >>= unless_over rest) s).0
rest_ends fuel s (ok true, t) rest h enough some_left k = tt
rest_ends fuel s (ok false, t) rest (inl stopped) enough some_left k =
    k t
      (inl (stopped, omega (arith, +ℤ_parts (Gas.remaining s.evm.gas) (pos 2), enough, some_left)))
rest_ends fuel s (ok false, t) rest (inr (v, less)) enough some_left k =
    k t (inr (v, omega (int_laws, less, enough)))
rest_ends fuel s (err e, t) rest h enough some_left k = tt
rest_ends fuel s (panic, t) rest h enough some_left k = tt
rest_ends fuel s (unfinished, t) rest h enough some_left k = h

remaining_nonneg : (s : Machine) → IsValid s.evm.gas → pos 0 ≤ℤ Gas.remaining s.evm.gas
remaining_nonneg s v = rw (remaining_exact s.evm.gas v) (omega (int_laws, v.within))

stopped_current : (code : Bytecode) (s : Machine) → s.evm.stopped ≡ true → current code s ≡ none
stopped_current code s h = rw h refl

current_get :
    (code : Bytecode) (s : Machine) (i : Instruction)
    → current code s ≡ some i
    → get_elem? code.instructions s.evm.pc ≡ some i
current_get code s i e = elim (Bool-cases s.evm.stopped) [
  | inl h ↦ absurd (ground (arith, h, e))
  | inr h ↦ rw h at e
]

module _ ⦃prim : Primitives⦄ (system_call : Frame → Handler) where
  -- A round, by the instruction that runs.
  round :
      (o : Option Instruction) (fuel : ℕ) (code : Bytecode) (call : Call) (ctx : Context)
      (s : Machine)
      → current code s ≡ o
      → ArePlain code.instructions
      → IsFueled (suc fuel) s
      → ((t : Machine) → IsFueled fuel t → Ended (steps system_call fuel code call ctx t).0)
      → Ended (steps system_call (suc fuel) code call ctx s).0
  unfolding steps
  round none fuel code call ctx s e plain ready k =
      rw (steps, e) ((KeepsGas-Finishes _ (finish-KeepsGas code ctx)).at s)
  round (some i) fuel code call ctx s e plain (inl (stopped, positive)) k =
      absurd (ground (arith, e, stopped_current code s stopped))
  round (some i) fuel code call ctx s e plain (inr (v, enough)) k =
      let f : Frame = record { code = code; call = call; ctx = ctx; instruction = i } in
      rw (steps, e)
        (rest_ends fuel s (step system_call f s) (steps system_call fuel code call ctx)
          (step-Moved system_call f s
            (IsPlain-get code.instructions s.evm.pc i plain (current_get code s i e)) v)
          enough (remaining_nonneg s v) k)

  steps-Ended :
      (fuel : ℕ) (code : Bytecode) (call : Call) (ctx : Context) (s : Machine)
      → ArePlain code.instructions
      → IsFueled fuel s
      → Ended (steps system_call fuel code call ctx s).0
  steps-Ended zero code call ctx s plain (inl (stopped, positive)) =
      absurd (omega (arith, positive))
  steps-Ended zero code call ctx s plain (inr (v, enough)) =
      absurd
        (omega (arith, remaining_nonneg s v, enough, +ℤ_parts (Gas.remaining s.evm.gas) (pos 2)))
  steps-Ended (suc fuel) code call ctx s plain ready =
      round (current code s) fuel code call ctx s refl plain ready
        λ t. steps-Ended fuel code call ctx t plain

  begun :
      (s : Machine) (r : Outcome Done × Machine) (rest : Action (List ℕ))
      → Kept s r
      → ((t : Machine) → Same s t → Ended (rest t).0)
      → Ended (((λ _. r) >>= λ _. rest) s).0
  begun s (ok a, t) rest p k = k t p
  begun s (err e, t) rest p k = tt
  begun s (panic, t) rest p k = tt
  begun s (unfinished, t) rest p k = p

  abbrev body : Bool → ℕ → Bytecode → Call → Context → Action (List ℕ)
  body deep fuel code call ctx =
      if deep then (do modify_evm stop_reverted; pure []) else steps system_call fuel code call ctx

  body-Ended :
      (deep : Bool) (fuel : ℕ) (code : Bytecode) (call : Call) (ctx : Context) (s : Machine)
      → ArePlain code.instructions
      → IsFueled fuel s
      → Ended (body deep fuel code call ctx s).0
  unfolding modify_evm
  body-Ended true fuel code call ctx s plain ready = tt
  body-Ended false fuel code call ctx s plain ready = steps-Ended fuel code call ctx s plain ready

  execute-Ended :
      (fuel : ℕ) (code : Bytecode) (call : Call) (ctx : Context) (s : Machine)
      → ArePlain code.instructions
      → IsValid s.evm.gas
      → Gas.remaining s.evm.gas +ℤ pos 2 ≤ℤ pos fuel
      → Ended (execute_with_context system_call fuel code call ctx s).0
  unfolding execute_with_context
  execute-Ended fuel code call ctx s plain v enough =
      begun s (begin call ctx s) (body (ltb call_depth_limit ctx.depth) fuel code call ctx)
        ((begin-KeepsGas call ctx).at s)
        λ t same.
          body-Ended (ltb call_depth_limit ctx.depth) fuel code call ctx t plain
            (inr (Same-IsValid s t same v, rw (Same-remaining s t same) enough))

module _ ⦃prim : Primitives⦄ ⦃crates : Crates⦄ where
  -- A frame ends, on a valid gas, within two rounds more than the gas that it has left, on any
  -- level, when its code has no KECCAK256, LOG, copy, MLOAD, MSTORE or MSTORE8, and no instruction
  -- that runs another frame.
  pub run_ends :
      (fuel levels : ℕ) (code : Bytecode) (call : Call) (ctx : Context) (s : Machine)
      → ArePlain code.instructions
      → IsValid s.evm.gas
      → Gas.remaining s.evm.gas +ℤ pos 2 ≤ℤ pos fuel
      → (run fuel (suc levels) code call ctx s).0 ≢ unfinished
  unfolding run
  run_ends fuel levels code call ctx s plain v enough e = subst Ended e (
      execute-Ended (system_call (enter ctx.depth (run fuel levels))) fuel code call ctx s plain v
        enough)
