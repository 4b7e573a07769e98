-- ===== src/Step/Invariant.antt =====
-- Every instruction of src/executor.rs keeps the stack within its limit and the memory whole.
use solenoid.Base.{true, false}
use solenoid.Base.Int.{pos}
use solenoid.Primitives.{Primitives}
use solenoid.Outcome.{unknown_opcode}
use solenoid.Machine.{Machine, Handler}
use solenoid.Machine.Keeps.{Keeps, Keeps-raise}
use solenoid.Instr.Frame.{Frame}
use solenoid.Step.{Op, handler, op_of, execute_instruction}
use solenoid.Step.Sound
use solenoid.Step.Sound.{IsSound, next-IsSound}

module _ ⦃prim : Primitives⦄ (system_call : Frame → Handler)
    (keep : (f : Frame) → Keeps IsSound (system_call f)) where
  handler-IsSound : (f : Frame) (op : Op) → Keeps IsSound (handler system_call f op)
  unfolding handler
  handler-IsSound f Op.stop = Sound.Flow.stop-IsSound f
  handler-IsSound f Op.add = Sound.Arith.add-IsSound
  handler-IsSound f Op.mul = Sound.Arith.mul-IsSound
  handler-IsSound f Op.sub = Sound.Arith.sub-IsSound
  handler-IsSound f Op.div = Sound.Arith.div-IsSound
  handler-IsSound f Op.sdiv = Sound.Arith.sdiv-IsSound
  handler-IsSound f Op.modulo = Sound.Arith.mod'-IsSound
  handler-IsSound f Op.smod = Sound.Arith.smod-IsSound
  handler-IsSound f Op.addmod = Sound.Arith.addmod-IsSound
  handler-IsSound f Op.mulmod = Sound.Arith.mulmod-IsSound
  handler-IsSound f Op.exp = Sound.Arith.exp-IsSound
  handler-IsSound f Op.signextend = Sound.Arith.signextend-IsSound
  handler-IsSound f Op.lt = Sound.Bits.lt-IsSound
  handler-IsSound f Op.gt = Sound.Bits.gt-IsSound
  handler-IsSound f Op.slt = Sound.Bits.slt-IsSound
  handler-IsSound f Op.sgt = Sound.Bits.sgt-IsSound
  handler-IsSound f Op.eq = Sound.Bits.eq-IsSound
  handler-IsSound f Op.iszero = Sound.Bits.iszero-IsSound
  handler-IsSound f Op.and = Sound.Bits.and-IsSound
  handler-IsSound f Op.or = Sound.Bits.or-IsSound
  handler-IsSound f Op.xor = Sound.Bits.xor-IsSound
  handler-IsSound f Op.not = Sound.Bits.not'-IsSound
  handler-IsSound f Op.byte = Sound.Bits.byte-IsSound
  handler-IsSound f Op.shl = Sound.Bits.shl-IsSound
  handler-IsSound f Op.shr = Sound.Bits.shr-IsSound
  handler-IsSound f Op.sar = Sound.Bits.sar-IsSound
  handler-IsSound f Op.clz = Sound.Bits.clz-IsSound
  handler-IsSound f Op.sha3 = Sound.Env.sha3-IsSound f
  handler-IsSound f Op.address = Sound.Env.address-IsSound f
  handler-IsSound f Op.balance = Sound.Env.balance_op-IsSound f
  handler-IsSound f Op.origin = Sound.Env.origin-IsSound f
  handler-IsSound f Op.caller = Sound.Env.caller-IsSound f
  handler-IsSound f Op.callvalue = Sound.Env.callvalue-IsSound f
  handler-IsSound f Op.calldataload = Sound.Env.calldataload-IsSound f
  handler-IsSound f Op.calldatasize = Sound.Env.calldatasize-IsSound f
  handler-IsSound f Op.calldatacopy = Sound.Env.calldatacopy-IsSound f
  handler-IsSound f Op.codesize = Sound.Env.codesize-IsSound f
  handler-IsSound f Op.codecopy = Sound.Env.codecopy-IsSound f
  handler-IsSound f Op.gasprice = Sound.Env.gasprice-IsSound f
  handler-IsSound f Op.extcodesize = Sound.Env.extcodesize-IsSound f
  handler-IsSound f Op.extcodecopy = Sound.Env.extcodecopy-IsSound f
  handler-IsSound f Op.returndatasize = Sound.Env.returndatasize-IsSound f
  handler-IsSound f Op.returndatacopy = Sound.Env.returndatacopy-IsSound f
  handler-IsSound f Op.extcodehash = Sound.Env.extcodehash-IsSound f
  handler-IsSound f Op.blockhash = Sound.Block.blockhash-IsSound f
  handler-IsSound f Op.coinbase = Sound.Block.coinbase-IsSound f
  handler-IsSound f Op.timestamp = Sound.Block.timestamp-IsSound f
  handler-IsSound f Op.number = Sound.Block.number-IsSound f
  handler-IsSound f Op.prevrandao = Sound.Block.prevrandao-IsSound f
  handler-IsSound f Op.gaslimit = Sound.Block.gaslimit-IsSound f
  handler-IsSound f Op.chainid = Sound.Block.chainid-IsSound f
  handler-IsSound f Op.selfbalance = Sound.Block.selfbalance-IsSound f
  handler-IsSound f Op.basefee = Sound.Block.basefee-IsSound f
  handler-IsSound f Op.blobhash = Sound.Block.blobhash-IsSound f
  handler-IsSound f Op.blobbasefee = Sound.Block.blobbasefee-IsSound f
  handler-IsSound f Op.pop = Sound.Memory.pop_op-IsSound
  handler-IsSound f Op.mload = Sound.Memory.mload-IsSound
  handler-IsSound f Op.mstore = Sound.Memory.mstore-IsSound
  handler-IsSound f Op.mstore8 = Sound.Memory.mstore8-IsSound
  handler-IsSound f Op.sload = Sound.Storage.sload-IsSound f
  handler-IsSound f Op.sstore = Sound.Storage.sstore-IsSound f
  handler-IsSound f Op.jump = Sound.Flow.jump-IsSound f
  handler-IsSound f Op.jumpi = Sound.Flow.jumpi-IsSound f
  handler-IsSound f Op.pc = Sound.Flow.pc_op-IsSound f
  handler-IsSound f Op.msize = Sound.Flow.msize-IsSound
  handler-IsSound f Op.gas = Sound.Flow.gas_op-IsSound
  handler-IsSound f Op.jumpdest = Sound.Flow.jumpdest-IsSound
  handler-IsSound f Op.tload = Sound.Storage.tload-IsSound f
  handler-IsSound f Op.tstore = Sound.Storage.tstore-IsSound f
  handler-IsSound f Op.mcopy = Sound.Memory.mcopy-IsSound
  handler-IsSound f Op.push0 = Sound.Stack.push0-IsSound
  handler-IsSound f Op.push = Sound.Stack.push_n-IsSound f
  handler-IsSound f Op.dup = Sound.Stack.dup-IsSound f
  handler-IsSound f Op.swap = Sound.Stack.swap-IsSound f
  handler-IsSound f Op.log = Sound.Stack.log-IsSound f
  handler-IsSound f Op.return = Sound.Flow.return_op-IsSound f false
  handler-IsSound f Op.revert = Sound.Flow.return_op-IsSound f true
  handler-IsSound f Op.selfdestruct = Sound.Flow.selfdestruct-IsSound f
  handler-IsSound f Op.invalid = next-IsSound (pos 0)
  handler-IsSound f Op.system = keep f
  handler-IsSound f (Op.unknown code) = Keeps-raise (unknown_opcode code)

  -- From a machine whose stack holds at most 1024 words and whose memory is a whole number of
  -- 32-byte words, every instruction ends in such a machine, whether it succeeds, halts, fails or
  -- panics, provided that the arms of CALL and CREATE, which are a parameter, keep this too.
  pub execute_instruction-IsSound :
      (f : Frame) (s : Machine) → IsSound s → IsSound (execute_instruction system_call f s).1
  unfolding execute_instruction
  execute_instruction-IsSound f s h = (handler-IsSound f (op_of f.instruction.opcode.code)).at s h
