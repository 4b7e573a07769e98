-- ===== src/Instr/Storage.antt =====
-- Opcodes 0x54, 0x55, 0x5c and 0x5d: storage and transient storage.
pub mod Pricing
pub mod Net
pub mod Short
use solenoid.Base.{
  ℕ, ◌+◌, Bool, true, false, not, Option, none, some, List, [], ◌∷◌, get_or, ltb, ◌==◌,
  if◌then◌else◌,
}
use solenoid.Base.Int.{ℤ, pos, ltb_ℤ}
use solenoid.Base.I64.{add_i64}
use solenoid.Primitives.{Primitives}
use solenoid.Outcome.{
  Outcome, ok, err, panic, unfinished, Report, Done, executor, static_call_violation,
}
use solenoid.Word.{Word, zero_word}
use solenoid.Maps.{insert_pair, or_zero}
use solenoid.Gas
use solenoid.Types.{Address, AccountTouch}
use solenoid.Event.{EventData, OpCode, event}
use solenoid.Event
use solenoid.Ext.{Ext, Access, is_storage_warm, warm_storage}
use solenoid.Ext.Slot
use solenoid.Evm
use solenoid.Evm.{Evm}
use solenoid.Machine.{
  Machine, Action, Handler, StepResult, ◌>>=◌, ◌>>◌, pure, raise, gets, on_evm, on_ext, modify_evm,
  modify_ext, touch, trace, pop, push, need_gas, next,
}
use solenoid.Instr.Frame.{Frame, this_address}
use solenoid.Instr.Storage.Pricing.{sstore_cost, sstore_refund}

-- `Evm::get` and `Evm::put`: an error of the world state is an exceptional halt.
unfoldable pub or_halt : {A : Type 0} → Access A → Action A
or_halt m s =
    let (r, ext) = m s.ext in
    let s' : Machine = record s { ext = ext } in
    elim r [
      | ok a ↦ (ok a, s')
      | err e ↦ on_evm (Evm.error e) s'
      | panic ↦ (panic, s')
      | unfinished ↦ (unfinished, s')
    ]

-- Marks the slot as accessed, and says whether it was before.
unfoldable pub access_slot : Address → Word → Action Bool
unfolding modify_ext
access_slot a k s =
    let is_warm = is_storage_warm a k s.ext in
    if is_warm then (ok is_warm, s) else (do modify_ext (warm_storage a k); pure is_warm) s

-- The report of an SSTORE that runs out of gas.
abbrev out_of_gas_event : Frame → ℤ → ℤ → ℤ → Machine → EventData
out_of_gas_event f cost used left s = Event.op_code (record {
  pc = f.instruction.offset;
  op = f.instruction.opcode.code;
  argument = f.instruction.argument;
  gas_cost = cost;
  gas_used = used;
  gas_left = left;
  gas_back = pos 0;
  stack = s.evm.stack;
  memory = s.evm.memory;
})

module _ ⦃prim : Primitives⦄ (f : Frame) where
  unfoldable pub sload : Handler
  sload = do
    top ← on_evm (Evm.peek 1)
    let this = this_address f
    let key = get_or top 0 0
    is_warm ← access_slot this key
    let gas : ℤ = if is_warm then pos 100 else pos 2100
    need_gas gas do
      _ ← pop
      val ← or_halt (Slot.get this key)
      push val
      touch (AccountTouch.get_state this key val is_warm)
      trace (event (EventData.state (Event.get this key val)) f.ctx.depth false)
      next gas

  -- SSTORE once the slot is read.
  unfoldable pub sstore_write : Word → Word → Word → Word → Bool → Handler
  sstore_write key new val original is_warm = do
    let this = this_address f
    let cost = sstore_cost original val new is_warm
    let refund = sstore_refund original val new
    s ← gets (λ s. s)
    let left = Gas.remaining s.evm.gas
    (if ltb_ℤ (add_i64 left refund) (pos 0)
        then (do
          trace (event (out_of_gas_event f (pos 0) s.evm.gas.used left s) f.ctx.depth true)
          pure (StepResult.halt (pos 0)))
        else if ltb_ℤ left cost
        then (do
          trace (
              event (out_of_gas_event f left (add_i64 s.evm.gas.used left) (pos 0) s) f.ctx.depth
                true)
          pure (StepResult.halt (pos 0)))
        else (do
          or_halt (Slot.put this key new)
          modify_evm (λ evm. record evm { gas = Gas.refund evm.gas refund })
          trace (event (EventData.state (Event.put this key val new refund)) f.ctx.depth false)
          touch (AccountTouch.set_state this key val new is_warm)
          next cost))

  unfoldable pub sstore : Handler
  sstore = if f.ctx.is_static_call then raise (static_call_violation 0x55) else (do
    key ← pop
    new ← pop
    let this = this_address f
    is_warm ← access_slot this key
    val ← or_halt (Slot.get this key)
    original ← gets (λ s. or_zero (s.ext.original this key))
    sstore_write key new val original is_warm)

  unfoldable pub tload : Handler
  tload = need_gas (pos 100) do
    key ← pop
    val ← gets (λ s. or_zero (s.ext.transient (this_address f) key))
    push val
    next (pos 100)

  unfoldable pub tstore : Handler
  tstore = need_gas (pos 100) do
    key ← pop
    val ← pop
    let this = this_address f
    old ← gets (λ s. or_zero (s.ext.transient this key))
    modify_ext (λ ext. record ext { transient = insert_pair this key val ext.transient })
    touch (AccountTouch.set_transient_state this key old val)
    next (pos 100)
