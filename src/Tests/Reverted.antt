-- ===== src/Tests/Reverted.antt =====
-- A test of a call whose frame reverts.
use solenoid.Base.{arith, some, ap, ℕ, List, ◌≡◌, refl, true, [], ◌∷◌}
use solenoid.Base.Int.{pos}
use solenoid.Primitives.Native.{native}
use solenoid.Outcome.{Outcome, ok}
use solenoid.Evm.Revert.Observed.{observed}
use solenoid.Evm.Revert.Journal.{Journal, start, write, warm_up}
use solenoid.Frames.Transfer.Moves.{value_of}
use solenoid.Ext.{Account}
use solenoid.Machine.{Machine}
use solenoid.Maps.{insert}
use solenoid.Frames.Inner.{Runner, inner_machine}
use solenoid.Frames.Call.Contract.{call_contract, Called, inner_call}
use solenoid.Frames.{run}
use solenoid.Precompiles.Native.{native_crates}
use solenoid.Decoder.{decode}
use solenoid.Frames.Reverted.{called, call_contract_keeps_transfer}
use solenoid.Tests.Data.{contract, frame, world, with}

-- 5 is stored in slot 3, and the frame reverts.
abbrev storing : List ℕ
storing = 0x60 ∷ 5 ∷ 0x60 ∷ 3 ∷ 0x55 ∷ 0x5f ∷ 0x5f ∷ 0xfd ∷ []

abbrev runner : Runner
runner = run 12 2

abbrev receiver : Account
receiver = record contract { value = 70; nonce = 5 }

abbrev calling : Machine
calling = record (with [] (pos 50000)) {
  ext = record world { state = insert 0xaa receiver world.state };
}

-- 0xcc calls 0xaa with the value 20.
abbrev sending : Called
sending = record {
  args = record {
    gas = 1000;
    address = 0xaa;
    value = 20;
    args_offset = 0;
    args_size = 0;
    ret_offset = 0;
    ret_size = 0;
  };
  input = [];
  code = storing;
  hash = 0;
  gas = pos 9300;
  stipend = pos 2300;
  traced = pos 1000;
}

abbrev refused : Outcome (List ℕ) × Machine
refused =
    runner (decode storing) (inner_call frame sending) frame.ctx
      (inner_machine (pos 9300) (called frame sending calling))

reverts : (refused.0 ≡ ok []) × (refused.1.evm.reverted ≡ true)
unfolding run decode solenoid.Machine.trace inner_call solenoid.Frames.Warm.warm_up
    solenoid.Ext.warm_address solenoid.Frames.Transfer.call_transfer solenoid.Machine.on_ext
    solenoid.Ext.balance solenoid.Ext.pull solenoid.Machine.unwrap solenoid.Ext.Slot.change_account
    solenoid.Opcodes.push_len solenoid.Opcodes.get_opcode solenoid.Step.execute_instruction
    solenoid.Instr.Stack.push_n solenoid.Machine.need_gas solenoid.Gas.remaining
    solenoid.Base.I64.sub_i64 solenoid.Base.I64.wrap_i64 solenoid.Base.Int.◌-ℤ◌
    solenoid.Instr.Stack.or_missing solenoid.Machine.push solenoid.Evm.push solenoid.Machine.next
    solenoid.Decoder.is_call solenoid.Frames.Report.report_cost solenoid.Evm.charge
    solenoid.Gas.charge solenoid.Base.I64.add_i64 solenoid.Base.Int.◌+ℤ◌
    solenoid.Instr.Storage.sstore solenoid.Machine.pop solenoid.Evm.pop
    solenoid.Instr.Storage.access_slot solenoid.Instr.Storage.or_halt solenoid.Ext.Slot.get
    solenoid.Ext.warm_storage solenoid.Primitives.Bytes.be_value solenoid.Base.Lists.resize
    solenoid.Instr.Storage.sstore_write solenoid.Instr.Storage.Pricing.sstore_refund
    solenoid.Instr.Storage.Pricing.sstore_cost solenoid.Ext.Slot.put solenoid.Ext.store_slot
    solenoid.Gas.refund solenoid.Instr.Stack.push0 solenoid.Instr.Flow.return_op
    solenoid.Instr.Frame.pop_usize solenoid.Machine.set_ret solenoid.Machine.memory_expansion_cost
    solenoid.Evm.memory_expansion_cost solenoid.Base.I64.div_i64 solenoid.Base.I64.mul_i64
    solenoid.Base.Int.◌*ℤ◌ solenoid.Base.I64.div_ceil
reverts = (refl, refl)

-- The frame notes its account as warm, and writes a slot of the account that was cold.
noted : Journal (called frame sending calling).ext refused.1.evm.touches refused.1.ext
unfolding run decode solenoid.Machine.trace inner_call solenoid.Frames.Warm.warm_up
    solenoid.Ext.warm_address solenoid.Frames.Transfer.call_transfer solenoid.Machine.on_ext
    solenoid.Ext.balance solenoid.Ext.pull solenoid.Machine.unwrap solenoid.Ext.Slot.change_account
    solenoid.Opcodes.push_len solenoid.Opcodes.get_opcode solenoid.Step.execute_instruction
    solenoid.Instr.Stack.push_n solenoid.Machine.need_gas solenoid.Gas.remaining
    solenoid.Base.I64.sub_i64 solenoid.Base.I64.wrap_i64 solenoid.Base.Int.◌-ℤ◌
    solenoid.Instr.Stack.or_missing solenoid.Machine.push solenoid.Evm.push solenoid.Machine.next
    solenoid.Decoder.is_call solenoid.Frames.Report.report_cost solenoid.Evm.charge
    solenoid.Gas.charge solenoid.Base.I64.add_i64 solenoid.Base.Int.◌+ℤ◌
    solenoid.Instr.Storage.sstore solenoid.Machine.pop solenoid.Evm.pop
    solenoid.Instr.Storage.access_slot solenoid.Instr.Storage.or_halt solenoid.Ext.Slot.get
    solenoid.Ext.warm_storage solenoid.Primitives.Bytes.be_value solenoid.Base.Lists.resize
    solenoid.Instr.Storage.sstore_write solenoid.Instr.Storage.Pricing.sstore_refund
    solenoid.Instr.Storage.Pricing.sstore_cost solenoid.Ext.Slot.put solenoid.Ext.store_slot
    solenoid.Gas.refund solenoid.Instr.Stack.push0 solenoid.Instr.Flow.return_op
    solenoid.Instr.Frame.pop_usize solenoid.Machine.set_ret solenoid.Machine.memory_expansion_cost
    solenoid.Evm.memory_expansion_cost solenoid.Base.I64.div_i64 solenoid.Base.I64.mul_i64
    solenoid.Base.Int.◌*ℤ◌ solenoid.Base.I64.div_ceil solenoid.Evm.Revert.Slots.accessed
noted = write 0xaa 3 9 5 (record receiver { value = 90 }) (warm_up 0xcc start refl) refl refl

call_contract_keeps_transfer_example :
    let after = call_contract runner frame sending calling in
    (after.0 ≡ ok tt)
    × (after.1.evm.stack ≡ 0 ∷ [])
    × (observed after.1.ext ≡ observed (called frame sending calling).ext)
    × (value_of 0xcc after.1.ext ≡ some 30)
    × (value_of 0xaa after.1.ext ≡ some 90)
call_contract_keeps_transfer_example =
    call_contract_keeps_transfer runner frame sending contract receiver calling [] refused.1 refl
      refl (omega arith) refl (omega arith) (ap (λ r. (r, refused.1)) reverts.0) reverts.1 noted
