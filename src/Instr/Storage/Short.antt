-- ===== src/Instr/Storage/Short.antt =====
-- SLOAD of src/executor.rs without the gas for it, and `Evm::revert` after it.
use solenoid.Base.{◌≡◌, refl, ◌∙◌, Bool, true, false, arith, List, [], ◌∷◌, get_or, if◌then◌else◌}
use solenoid.Base.Int.{pos, ◌<ℤ◌}
use solenoid.Primitives.{Primitives}
use solenoid.Outcome.{ok}
use solenoid.Word.{Word}
use solenoid.Gas
use solenoid.Types.{AccountTouch}
use solenoid.Event.{event, EventData}
use solenoid.Event
use solenoid.Ext.{is_storage_warm, warm_storage}
use solenoid.Ext.Slot
use solenoid.Evm
use solenoid.Evm.Revert.{revert, undo_all}
use solenoid.Machine.{
  Machine, Handler, StepResult, ◌>>=◌, ◌>>◌, on_evm, pop, push, touch, trace, need_gas, next,
}
use solenoid.Instr.Frame.{Frame, this_address}
use solenoid.Instr.Storage.{or_halt, access_slot, sload}
use solenoid.Step.Binary.{bind_ok, need_gas_halt}

module _ ⦃prim : Primitives⦄ (f : Frame) (s : Machine) (key : Word) (rest : List Word)
    (operand : s.evm.stack ≡ key ∷ rest) (cold : is_storage_warm (this_address f) key s.ext ≡ false)
    (short : Gas.remaining s.evm.gas <ℤ pos 2100) where
  abbrev warmed : Machine
  warmed = record s { ext = warm_storage (this_address f) key s.ext }

  peek_key : on_evm (Evm.peek 1) s ≡ (ok (key ∷ []), s)
  unfolding on_evm Evm.peek
  peek_key = rw operand (ground arith)

  access_cold : access_slot (this_address f) key s ≡ (ok false, warmed)
  unfolding access_slot
  access_cold = rw (access_slot, cold) refl

  sload_halts : sload f s ≡ (ok (StepResult.halt (pos 2100)), warmed)
  unfolding sload
  sload_halts =
      let this = this_address f in
      let body : Word → Bool → Handler = λ k is_warm. (do
        _ ← pop
        val ← or_halt (Slot.get this k)
        push val
        touch (AccountTouch.get_state this k val is_warm)
        trace (event (EventData.state (Event.get this k val)) f.ctx.depth false)
        next (if is_warm then pos 100 else pos 2100)) in
      let charged : Word → Bool → Handler =
        λ k is_warm. need_gas (if is_warm then pos 100 else pos 2100) (body k is_warm) in
      bind_ok (on_evm (Evm.peek 1))
        (λ top. access_slot this (get_or top 0 0) >>= charged (get_or top 0 0)) peek_key
      ∙ bind_ok (access_slot this key) (charged key) access_cold
      ∙ need_gas_halt (pos 2100) (body key false) warmed short

  -- In a frame that has recorded no touch, an SLOAD of a cold slot without the gas for it records
  -- none either, but leaves the slot warm, and `revert` does not make it cold again.
  pub sload_stays_warm :
      s.evm.touches ≡ []
      → (sload f s).1.evm.touches ≡ []
        × (is_storage_warm (this_address f) key (revert (sload f s).1.evm (sload f s).1.ext).1
            ≡ true)
  unfolding revert undo_all warm_storage
  sload_stays_warm fresh = rw (sload_halts, fresh) (refl, ground arith)
