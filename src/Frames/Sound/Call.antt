-- ===== src/Frames/Sound/Call.antt =====
-- `call` of src/executor.rs keeps the stack within its limit and the memory whole.
use solenoid.Base.{ℕ, refl, arith, List, length-resize, ◌*◌}
use solenoid.Base.Int.{ℤ}
use solenoid.Base.I64.{div_ceil}
use solenoid.Primitives.{Primitives}
use solenoid.Outcome.{Outcome, ok, err, panic, unfinished}
use solenoid.Word.{Word}
use solenoid.Types.{Address, CallType}
use solenoid.Machine.{modify_evm}
use solenoid.Machine.Keeps.{Keeps}
use solenoid.Evm.{Evm}
use solenoid.Instr.Frame.{Frame}
use solenoid.Precompiles.Interface.{Crates}
use solenoid.Frames.Inner.{Runner, Inner}
use solenoid.Frames.Transfer.{set_balance, move_value, call_transfer, create_transfer}
use solenoid.Frames.Call.Arguments.{
  CallArgs, pop_value, pop_args, expand_to, expand_call, resolve_code,
}
use solenoid.Frames.Call.Contract.{
  Called, pay_inner, take_refund, copy_back, settle_call, call_contract,
}
use solenoid.Frames.Call.{
  sync_refund, call_out_of_gas, precompile_result, call_precompile, forward, call,
}
use solenoid.Step.Sound.{IsSound, modify_evm-IsSound}
use solenoid.Step.Sound.Env.{address_access_cost-IsSound}
use solenoid.Frames.Sound.{frame_rules}

-- The transfers of value.
set_balance-IsSound :
    (d : ℕ) (a : Address) (old new : Word) → Keeps IsSound (set_balance d a old new)
unfolding set_balance
set_balance-IsSound d a old new = search frame_rules depth 24

module _ ⦃prim : Primitives⦄ where
  move_value-IsSound :
      (d : ℕ) (a b : Address) (funds held value : Word)
      → Keeps IsSound (move_value d a b funds held value)
  unfolding move_value
  move_value-IsSound d a b funds held value = search (frame_rules, set_balance-IsSound) depth 24

  call_transfer-IsSound :
      (t : CallType) (d : ℕ) (a b : Address) (value : Word)
      → Keeps IsSound (call_transfer t d a b value)
  unfolding call_transfer
  call_transfer-IsSound t d a b value = search (frame_rules, move_value-IsSound) depth 24

  pub create_transfer-IsSound :
      (t : CallType) (d : ℕ) (a b : Address) (value : Word)
      → Keeps IsSound (create_transfer t d a b value)
  unfolding create_transfer
  create_transfer-IsSound t d a b value = search (frame_rules, move_value-IsSound) depth 24

-- The arguments and the memory.
pop_value-IsSound : (f : Frame) → Keeps IsSound (pop_value f)
unfolding pop_value
pop_value-IsSound f = search frame_rules depth 24

expand_to-IsSound : (size : ℕ) → Keeps IsSound (expand_to size)
unfolding expand_to
expand_to-IsSound size = record {
  at = λ s h. ground (arith, length-resize (div_ceil size 32 * 32) 0 s.evm.memory);
}

expand_call-IsSound : (args : CallArgs) → Keeps IsSound (expand_call args)
unfolding expand_call
expand_call-IsSound args = expand_to-IsSound _

module _ ⦃prim : Primitives⦄ where
  pop_args-IsSound : (f : Frame) → Keeps IsSound (pop_args f)
  unfolding pop_args
  pop_args-IsSound f = search (frame_rules, pop_value-IsSound) depth 24

  resolve_code-IsSound : (a : Address) → Keeps IsSound (resolve_code a)
  unfolding resolve_code
  resolve_code-IsSound a = search (frame_rules, address_access_cost-IsSound) depth 24

-- The end of the call.
pay_inner-IsSound : (used stipend : ℤ) → Keeps IsSound (modify_evm (pay_inner used stipend))
pay_inner-IsSound used stipend = modify_evm-IsSound _ (λ evm. refl) (λ evm. refl)

pub take_refund-IsSound : (refund : ℤ) → Keeps IsSound (modify_evm (take_refund refund))
take_refund-IsSound refund = modify_evm-IsSound _ (λ evm. refl) (λ evm. refl)

sync_refund-IsSound : Keeps IsSound sync_refund
unfolding sync_refund
sync_refund-IsSound = modify_evm-IsSound _ (λ evm. refl) (λ evm. refl)

copy_back-IsSound : (args : CallArgs) (ret : List ℕ) → Keeps IsSound (copy_back args ret)
unfolding copy_back
copy_back-IsSound args ret = search frame_rules depth 24

note_refund-IsSound :
    Keeps IsSound (modify_evm (λ (evm : Evm). record evm { refund = evm.gas.refunded }))
note_refund-IsSound = modify_evm-IsSound _ (λ evm. refl) (λ evm. refl)

settle_call-IsSound : (inner : Inner) → Keeps IsSound (settle_call inner)
unfolding settle_call
settle_call-IsSound inner = search (frame_rules, take_refund-IsSound, note_refund-IsSound) depth 24

call_out_of_gas-IsSound : (f : Frame) (args : CallArgs) → Keeps IsSound (call_out_of_gas f args)
unfolding call_out_of_gas
call_out_of_gas-IsSound f args = search (frame_rules, sync_refund-IsSound) depth 24

ruleset call_rules = (
  frame_rules, call_transfer-IsSound, pay_inner-IsSound, copy_back-IsSound, settle_call-IsSound,
  call_out_of_gas-IsSound, pop_args-IsSound, expand_call-IsSound, resolve_code-IsSound,
)

module _ ⦃prim : Primitives⦄ where
  call_contract-IsSound :
      (run : Runner) (f : Frame) (c : Called) → Keeps IsSound (call_contract run f c)
  unfolding call_contract
  call_contract-IsSound run f c = search call_rules depth 30

module _ ⦃prim : Primitives⦄ ⦃crates : Crates⦄ where
  precompile_result-IsSound : (r : Outcome (List ℕ)) → Keeps IsSound (precompile_result r)
  unfolding precompile_result
  precompile_result-IsSound (ok ret) = search frame_rules
  precompile_result-IsSound (err e) = search frame_rules
  precompile_result-IsSound panic = record { at = λ s h. h }
  precompile_result-IsSound unfinished = record { at = λ s h. h }

  call_precompile-IsSound :
      (f : Frame) (args : CallArgs) (input : List ℕ) (traced : ℤ)
      → Keeps IsSound (call_precompile f args input traced)
  unfolding call_precompile
  call_precompile-IsSound f args input traced =
      search (frame_rules, precompile_result-IsSound) depth 30

  forward-IsSound :
      (run : Runner) (f : Frame) (args : CallArgs) (code : List ℕ) (hash : Word) (base : ℤ)
      → Keeps IsSound (forward run f args code hash base)
  unfolding forward
  forward-IsSound run f args code hash base =
      search (call_rules, call_precompile-IsSound, call_contract-IsSound) depth 30

  pub call-IsSound : (run : Runner) (f : Frame) → Keeps IsSound (call run f)
  unfolding call
  call-IsSound run f = search (call_rules, forward-IsSound) depth 30
