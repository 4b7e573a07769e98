-- ===== src/Frames/Report.antt =====
-- The report of an instruction in the trace, for the loop, the calls and the creations of
-- src/executor.rs.
use solenoid.Base.{false}
use solenoid.Base.Int.{ℤ}
use solenoid.Base.I64.{add_i64, sub_i64}
use solenoid.Gas
use solenoid.Event.{EventData, event}
use solenoid.Machine.{Machine, Action, trace}
use solenoid.Outcome.{Done}
use solenoid.Instr.Frame.{Frame}

-- `EventData::OpCode` with this cost, gas used, gas left and refund.
abbrev pub op_event : Frame → ℤ → ℤ → ℤ → ℤ → Machine → EventData
op_event f cost used left back s = EventData.op_code (record {
  pc = f.instruction.offset;
  op = f.instruction.opcode.code;
  argument = f.instruction.argument;
  gas_cost = cost;
  gas_used = used;
  gas_left = left;
  gas_back = back;
  stack = s.evm.stack;
  memory = s.evm.memory;
})

-- The report of a cost that is charged afterwards.
unfoldable pub report_cost : Frame → ℤ → ℤ → Action Done
unfolding trace
report_cost f cost back s =
    let gas = s.evm.gas in
    trace
      (event (op_event f cost (add_i64 gas.used cost) (sub_i64 (Gas.remaining gas) cost) back s)
        f.ctx.depth false)
      s
