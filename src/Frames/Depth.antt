-- ===== src/Frames/Depth.antt =====
-- The limit on the depth of the frames of src/executor.rs ends the recursion of frames in frames.
use solenoid.Base.{
  Bool, false, if◌then◌else◌, ℕ, zero, suc, ◌+◌, ◌<◌, ◌≡◌, refl, ap, sym, ◌∙◌, fun_ext, true, List,
  [], arith, ltb, lt→ltb, not,
}
use solenoid.Primitives.{Primitives}
use solenoid.Precompiles.Interface.{Crates}
use solenoid.Outcome.{Outcome, Done, ok}
use solenoid.Types.{Address, AccountTouch, Call, Context, is_zero_address}
use solenoid.Ext.{warm_address}
use solenoid.Frames.Warm.{warm_up}
use solenoid.Decoder.{Bytecode}
use solenoid.Evm.{call_depth_limit}
use solenoid.Machine.{Machine, Handler, Action, ◌>>◌, pure, modify_evm, modify_ext, trace, touch}
use solenoid.Machine.Run.{run_ok}
use solenoid.Instr.Frame.{Frame}
use solenoid.Frames.{run}
use solenoid.Frames.Inner.{Runner, enter}
use solenoid.Frames.System.{system_call}
use solenoid.Frames.Loop.{begin, stop_reverted, execute_with_context}

-- A frame that is refused for its depth.
abbrev refused : Call → Context → Action (List ℕ)
refused call ctx = begin call ctx >> (modify_evm stop_reverted >> pure [])

module _ ⦃prim : Primitives⦄ where
  -- Past the limit no instruction runs, and so no call.
  past_limit :
      (m n : Frame → Handler) (fuel : ℕ) (code : Bytecode) (call : Call) (ctx : Context)
      (s : Machine)
      → ltb call_depth_limit ctx.depth ≡ true
      → execute_with_context m fuel code call ctx s ≡ execute_with_context n fuel code call ctx s
  unfolding execute_with_context
  past_limit m n fuel code call ctx s h = rw (execute_with_context, h) refl

  stopped_at_limit :
      (m : Frame → Handler) (fuel : ℕ) (code : Bytecode) (call : Call) (ctx : Context) (s : Machine)
      → ltb call_depth_limit ctx.depth ≡ true
      → execute_with_context m fuel code call ctx s ≡ refused call ctx s
  unfolding execute_with_context
  stopped_at_limit m fuel code call ctx s h = rw (execute_with_context, h) refl

-- An action that succeeds with the gas and the accounts as they were.
abbrev IsQuiet : Machine → Outcome Done × Machine → Type 0
IsQuiet s after =
    (after.0 ≡ ok tt) × (after.1.evm.gas ≡ s.evm.gas) × (after.1.ext.state ≡ s.ext.state)

touch_if-IsQuiet :
    (b : Bool) (t : AccountTouch) (s : Machine) → IsQuiet s ((if b then touch t else pure tt) s)
unfolding touch modify_evm
touch_if-IsQuiet true t s = (refl, refl, refl)
touch_if-IsQuiet false t s = (refl, refl, refl)

warm_up_if-IsQuiet :
    (b : Bool) (a : Address) (s : Machine) → IsQuiet s ((if b then pure tt else warm_up a) s)
unfolding warm_up modify_ext warm_address
warm_up_if-IsQuiet true a s = (refl, refl, refl)
warm_up_if-IsQuiet false a s =
    touch_if-IsQuiet (not (s.ext.accessed_addresses a)) (AccountTouch.warm_up a) _

begin-IsQuiet : (call : Call) (ctx : Context) (s : Machine) → IsQuiet s (begin call ctx s)
unfolding begin trace
begin-IsQuiet call ctx s = warm_up_if-IsQuiet (is_zero_address call.sender) call.sender _

refused_end :
    (call : Call) (ctx : Context) (s : Machine)
    → refused call ctx s ≡ (modify_evm stop_reverted >> pure []) (begin call ctx s).1
refused_end call ctx s =
    run_ok (begin call ctx) (λ _. modify_evm stop_reverted >> pure []) s (begin call ctx s).1 tt
      (ap (λ (r : Outcome Done). (r, (begin call ctx s).1)) (begin-IsQuiet call ctx s).0)

quiet_end :
    (call : Call) (ctx : Context) (s : Machine)
    → let after = refused call ctx s in
      (after.0 ≡ ok [])
      × (after.1.evm.reverted ≡ true)
      × (after.1.evm.gas ≡ s.evm.gas)
      × (after.1.ext.state ≡ s.ext.state)
unfolding modify_evm
quiet_end call ctx s =
    let quiet = begin-IsQuiet call ctx s in
    rw (refused_end call ctx s) (refl, refl, quiet.1, quiet.2)

module _ ⦃prim : Primitives⦄ ⦃crates : Crates⦄ where
  same_calls :
      (fuel : ℕ) (m n : Runner) (code : Bytecode) (call : Call) (ctx : Context) (s : Machine)
      → enter ctx.depth m ≡ enter ctx.depth n
      → execute_with_context (system_call (enter ctx.depth m)) fuel code call ctx s
        ≡ execute_with_context (system_call (enter ctx.depth n)) fuel code call ctx s
  same_calls fuel m n code call ctx s e =
      ap (λ (r : Runner). execute_with_context (system_call r) fuel code call ctx s) e

  -- A frame past the limit on the depth runs no instruction: it returns nothing, reverted, and has
  -- neither used gas nor changed an account.
  pub run_past_limit :
      (fuel levels : ℕ) (code : Bytecode) (call : Call) (ctx : Context) (s : Machine)
      → call_depth_limit < ctx.depth
      → let after = run fuel (suc levels) code call ctx s in
        (after.0 ≡ ok [])
        × (after.1.evm.reverted ≡ true)
        × (after.1.evm.gas ≡ s.evm.gas)
        × (after.1.ext.state ≡ s.ext.state)
  unfolding run
  run_past_limit fuel levels code call ctx s h =
      rw
        (stopped_at_limit (system_call (enter ctx.depth (run fuel levels))) fuel code call ctx s
          (lt→ltb call_depth_limit ctx.depth h))
        (quiet_end call ctx s)

  one_more_level :
      (fuel levels : ℕ) (code : Bytecode) (call : Call) (ctx : Context) (s : Machine)
      → call_depth_limit < ctx.depth + levels
      → run fuel (suc levels) code call ctx s ≡ run fuel (suc (suc levels)) code call ctx s
  unfolding run
  one_more_level fuel zero code call ctx s h =
      past_limit _ _ fuel code call ctx s (lt→ltb call_depth_limit ctx.depth (omega (arith, h)))
  one_more_level fuel (suc levels) code call ctx s h =
      same_calls fuel (run fuel (suc levels)) (run fuel (suc (suc levels))) code call ctx s (
        fun_ext λ c. fun_ext λ d. fun_ext λ x. fun_ext λ t.
          one_more_level fuel levels c d (record x { depth = ctx.depth + 1 }) t (omega (arith, h)))

  -- Levels that reach the limit on the depth are enough: with more of them, a frame runs in the same
  -- way.
  pub run_levels :
      (fuel more levels : ℕ) (code : Bytecode) (call : Call) (ctx : Context) (s : Machine)
      → call_depth_limit < ctx.depth + levels
      → run fuel (suc (more + levels)) code call ctx s ≡ run fuel (suc levels) code call ctx s
  run_levels fuel zero levels code call ctx s h =
      ap (λ (n : ℕ). run fuel (suc n) code call ctx s) (omega arith)
  run_levels fuel (suc more) levels code call ctx s h =
      ap (λ (n : ℕ). run fuel (suc n) code call ctx s) (omega arith)
      ∙ sym (one_more_level fuel (more + levels) code call ctx s (omega (arith, h)))
      ∙ run_levels fuel more levels code call ctx s h
