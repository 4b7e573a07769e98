-- ===== src/Instr/Flow.antt =====
-- Opcodes 0x00, 0x56 to 0x5b, 0xf3, 0xfd and 0xff: the flow of control and the end of a frame.
pub mod Targets
use mathlib.Core.Option
use solenoid.Base.{
  ℕ, ◌+◌, ◌&&◌, Bool, true, false, not, Option, none, some, [], ◌∷◌, ◌++◌, length, get_elem?, ltb,
  ◌==◌, if◌then◌else◌,
}
use solenoid.Base.Int.{ℤ, pos}
use solenoid.Base.I64.{as_u64, sub_i64, add_usize}
use solenoid.Primitives.{Primitives}
use solenoid.Outcome.{static_call_violation}
use solenoid.Word.{is_zero, zero_word}
use solenoid.Gas
use solenoid.Types.{address_of_word, is_static}
use solenoid.Event.{EventData, event}
use solenoid.Decoder.{Instruction, resolve_jump}
use solenoid.Ext.{balance, is_address_warm}
use solenoid.Ext.Slot
use solenoid.Ext.Slot.{change_account}
use solenoid.Machine.{
  Handler, StepResult, ◌>>=◌, ◌>>◌, pure, raise, gets, unwrap, on_ext, modify_evm, modify_ext,
  trace, set_ret, pop, push, memory_expansion_cost, need_gas, next,
}
use solenoid.Instr.Frame.{Frame, this_address, memory_size, expand, read_memory, pop_usize}

-- STOP
unfoldable pub stop : Frame → Handler
stop f = do
  modify_evm
      (λ evm. record evm { pc = length f.code.instructions; stopped = true; reverted = false })
  set_ret []
  used ← gets (λ s. s.evm.gas.used)
  trace (event (EventData.returned true [] used) f.ctx.depth false)
  pure (StepResult.done (pos 0))

-- JUMPDEST
unfoldable pub jumpdest : Handler
jumpdest = need_gas (pos 1) (next (pos 1))

-- The end of a jump: without a target the frame halts; otherwise the program counter is set, not
-- moved on.
unfoldable pub jump_or_halt : ℤ → Option ℕ → Handler
jump_or_halt gas none = pure (StepResult.halt gas)
jump_or_halt gas (some dest) = do
  modify_evm (λ evm. record evm { pc = dest })
  pure (StepResult.done gas)

-- The code of the instruction at an index.
abbrev pub code_at : Frame → ℕ → Option ℕ
code_at f index =
    Option.map (λ (i : Instruction). i.opcode.code) (get_elem? f.code.instructions index)

-- The index that JUMP sets: that of a JUMPDEST instruction.
unfoldable pub jump_target : Frame → ℕ → Option ℕ
jump_target f offset = elim (resolve_jump f.code offset) [
  | none ↦ none
  | some dest ↦ elim (code_at f dest) [
    | none ↦ none
    | some op ↦ if op == 0x5b then some dest else none
  ]
]

-- The index that JUMPI sets: it may also be 0, whatever instruction stands there.
unfoldable pub jumpi_target : Frame → ℕ → Option ℕ
jumpi_target f offset = elim (resolve_jump f.code offset) [
  | none ↦ none
  | some dest ↦ elim (code_at f dest) [
    | none ↦ none
    | some op ↦ if not (op == 0x5b) && not (dest == 0) then none else some dest
  ]
]

module _ ⦃prim : Primitives⦄ (f : Frame) where
  unfoldable pub jump : Handler
  jump = need_gas (pos 8) do offset ← pop_usize; jump_or_halt (pos 8) (jump_target f offset)

  unfoldable pub jumpi : Handler
  jumpi = need_gas (pos 10) do
    offset ← pop_usize
    condition ← pop
    (if is_zero condition then next (pos 10) else jump_or_halt (pos 10) (jumpi_target f offset))

  unfoldable pub pc_op : Handler
  pc_op = need_gas (pos 2) do push f.instruction.offset; next (pos 2)

  -- RETURN and REVERT
  unfoldable pub return_op : Bool → Handler
  return_op reverted = do
    modify_evm (λ evm. record evm { stopped = true; reverted = reverted })
    offset ← pop_usize
    size ← pop_usize
    let end = add_usize offset size
    _ ←
        (if ltb 0 size
          then (do expand end; bytes ← read_memory offset end; set_ret bytes)
          else set_ret [])
    gas ← memory_expansion_cost
    ret ← gets (λ s. s.exec.ret)
    used ← gets (λ s. s.evm.gas.used)
    trace (event (EventData.returned (not reverted) ret used) f.ctx.depth reverted)
    next gas

  unfoldable pub selfdestruct : Handler
  selfdestruct = if is_static f.ctx.call_type then raise (static_call_violation 0xff) else (do
    w ← pop
    let heir = address_of_word w
    let this = this_address f
    is_warm ← gets (λ s. is_address_warm heir s.ext)
    let access_cost : ℕ = if is_warm then 0 else 2600
    empty ← on_ext (Slot.is_empty heir)
    let create_cost : ℕ = if empty then 25000 else 0
    funds ← on_ext (balance this)
    on_ext (change_account this (λ account. record account { value = zero_word }))
    held ← on_ext (balance heir)
    sum ← unwrap (prim.u256_add held funds)
    on_ext (change_account heir (λ account. record account { value = sum }))
    modify_ext (λ ext. record ext { destroyed_accounts = ext.destroyed_accounts ++ this ∷ [] })
    next (pos (5000 + access_cost + create_cost)))

-- MSIZE
unfoldable pub msize : Handler
msize = need_gas (pos 2) do size ← gets memory_size; push size; next (pos 2)

-- GAS: what remains after its own cost, as a `u64`.
unfoldable pub gas_op : Handler
gas_op = need_gas (pos 2) do
  left ← gets (λ s. Gas.remaining s.evm.gas)
  push (as_u64 (sub_i64 left (pos 2)))
  next (pos 2)
