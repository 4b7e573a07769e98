-- ===== src/Step/Progress/Plain.antt =====
-- The instructions of src/executor.rs but KECCAK256, LOG, the copies, MLOAD, MSTORE, MSTORE8 and
-- those that run another frame: each asks for a charge of more than 0, or stops the frame.
use solenoid.Base.{◌≡◌, Bool, true, false, arith}
use solenoid.Primitives.{Primitives}
use solenoid.Outcome.{unknown_opcode}
use solenoid.Machine.{Handler}
use solenoid.Instr.Frame.{Frame}
use solenoid.Step.{Op, handler}
use solenoid.Step.Progress
use solenoid.Step.Progress.{AsksGas, AsksGas-raise}

unfoldable pub is_plain : Op → Bool
is_plain Op.calldatacopy = false
is_plain Op.codecopy = false
is_plain Op.extcodecopy = false
is_plain Op.invalid = false
is_plain Op.log = false
is_plain Op.mcopy = false
is_plain Op.mload = false
is_plain Op.mstore = false
is_plain Op.mstore8 = false
is_plain Op.returndatacopy = false
is_plain Op.sha3 = false
is_plain Op.system = false
is_plain _ = true

module _ ⦃prim : Primitives⦄ (system_call : Frame → Handler) where
  pub handler-AsksGas :
      (f : Frame) (op : Op) → is_plain op ≡ true → AsksGas (handler system_call f op)
  unfolding handler is_plain
  handler-AsksGas f Op.stop h = Progress.Stops.stop-AsksGas f
  handler-AsksGas f Op.add h = Progress.Arith.add-AsksGas
  handler-AsksGas f Op.mul h = Progress.Arith.mul-AsksGas
  handler-AsksGas f Op.sub h = Progress.Arith.sub-AsksGas
  handler-AsksGas f Op.div h = Progress.Arith.div-AsksGas
  handler-AsksGas f Op.sdiv h = Progress.Arith.sdiv-AsksGas
  handler-AsksGas f Op.modulo h = Progress.Arith.mod'-AsksGas
  handler-AsksGas f Op.smod h = Progress.Arith.smod-AsksGas
  handler-AsksGas f Op.addmod h = Progress.Arith.addmod-AsksGas
  handler-AsksGas f Op.mulmod h = Progress.Arith.mulmod-AsksGas
  handler-AsksGas f Op.exp h = Progress.Exp.exp-AsksGas
  handler-AsksGas f Op.signextend h = Progress.Arith.signextend-AsksGas
  handler-AsksGas f Op.lt h = Progress.Bits.lt-AsksGas
  handler-AsksGas f Op.gt h = Progress.Bits.gt-AsksGas
  handler-AsksGas f Op.slt h = Progress.Bits.slt-AsksGas
  handler-AsksGas f Op.sgt h = Progress.Bits.sgt-AsksGas
  handler-AsksGas f Op.eq h = Progress.Bits.eq-AsksGas
  handler-AsksGas f Op.iszero h = Progress.Bits.iszero-AsksGas
  handler-AsksGas f Op.and h = Progress.Bits.and-AsksGas
  handler-AsksGas f Op.or h = Progress.Bits.or-AsksGas
  handler-AsksGas f Op.xor h = Progress.Bits.xor-AsksGas
  handler-AsksGas f Op.not h = Progress.Bits.not'-AsksGas
  handler-AsksGas f Op.byte h = Progress.Bits.byte-AsksGas
  handler-AsksGas f Op.shl h = Progress.Bits.shl-AsksGas
  handler-AsksGas f Op.shr h = Progress.Bits.shr-AsksGas
  handler-AsksGas f Op.sar h = Progress.Bits.sar-AsksGas
  handler-AsksGas f Op.clz h = Progress.Bits.clz-AsksGas
  handler-AsksGas f Op.sha3 h = absurd (ground arith)
  handler-AsksGas f Op.address h = Progress.Env.address-AsksGas f
  handler-AsksGas f Op.balance h = Progress.Env.balance_op-AsksGas f
  handler-AsksGas f Op.origin h = Progress.Env.origin-AsksGas f
  handler-AsksGas f Op.caller h = Progress.Env.caller-AsksGas f
  handler-AsksGas f Op.callvalue h = Progress.Env.callvalue-AsksGas f
  handler-AsksGas f Op.calldataload h = Progress.Env.calldataload-AsksGas f
  handler-AsksGas f Op.calldatasize h = Progress.Env.calldatasize-AsksGas f
  handler-AsksGas f Op.calldatacopy h = absurd (ground arith)
  handler-AsksGas f Op.codesize h = Progress.Env.codesize-AsksGas f
  handler-AsksGas f Op.codecopy h = absurd (ground arith)
  handler-AsksGas f Op.gasprice h = Progress.Env.gasprice-AsksGas f
  handler-AsksGas f Op.extcodesize h = Progress.Env.extcodesize-AsksGas f
  handler-AsksGas f Op.extcodecopy h = absurd (ground arith)
  handler-AsksGas f Op.returndatasize h = Progress.Env.returndatasize-AsksGas f
  handler-AsksGas f Op.returndatacopy h = absurd (ground arith)
  handler-AsksGas f Op.extcodehash h = Progress.Env.extcodehash-AsksGas f
  handler-AsksGas f Op.blockhash h = Progress.Block.blockhash-AsksGas f
  handler-AsksGas f Op.coinbase h = Progress.Block.coinbase-AsksGas f
  handler-AsksGas f Op.timestamp h = Progress.Block.timestamp-AsksGas f
  handler-AsksGas f Op.number h = Progress.Block.number-AsksGas f
  handler-AsksGas f Op.prevrandao h = Progress.Block.prevrandao-AsksGas f
  handler-AsksGas f Op.gaslimit h = Progress.Block.gaslimit-AsksGas f
  handler-AsksGas f Op.chainid h = Progress.Block.chainid-AsksGas f
  handler-AsksGas f Op.selfbalance h = Progress.Block.selfbalance-AsksGas f
  handler-AsksGas f Op.basefee h = Progress.Block.basefee-AsksGas f
  handler-AsksGas f Op.blobhash h = Progress.Block.blobhash-AsksGas f
  handler-AsksGas f Op.blobbasefee h = Progress.Block.blobbasefee-AsksGas f
  handler-AsksGas f Op.pop h = Progress.Stack.pop_op-AsksGas
  handler-AsksGas f Op.mload h = absurd (ground arith)
  handler-AsksGas f Op.mstore h = absurd (ground arith)
  handler-AsksGas f Op.mstore8 h = absurd (ground arith)
  handler-AsksGas f Op.sload h = Progress.Storage.sload-AsksGas f
  handler-AsksGas f Op.sstore h = Progress.Storage.sstore-AsksGas f
  handler-AsksGas f Op.jump h = Progress.Flow.jump-AsksGas f
  handler-AsksGas f Op.jumpi h = Progress.Flow.jumpi-AsksGas f
  handler-AsksGas f Op.pc h = Progress.Flow.pc_op-AsksGas f
  handler-AsksGas f Op.msize h = Progress.Flow.msize-AsksGas
  handler-AsksGas f Op.gas h = Progress.Flow.gas_op-AsksGas
  handler-AsksGas f Op.jumpdest h = Progress.Flow.jumpdest-AsksGas
  handler-AsksGas f Op.tload h = Progress.Storage.tload-AsksGas f
  handler-AsksGas f Op.tstore h = Progress.Storage.tstore-AsksGas f
  handler-AsksGas f Op.mcopy h = absurd (ground arith)
  handler-AsksGas f Op.push0 h = Progress.Stack.push0-AsksGas
  handler-AsksGas f Op.push h = Progress.Stack.push_n-AsksGas f
  handler-AsksGas f Op.dup h = Progress.Stack.dup-AsksGas f
  handler-AsksGas f Op.swap h = Progress.Stack.swap-AsksGas f
  handler-AsksGas f Op.log h = absurd (ground arith)
  handler-AsksGas f Op.return h = Progress.Stops.return_op-AsksGas f false
  handler-AsksGas f Op.revert h = Progress.Stops.return_op-AsksGas f true
  handler-AsksGas f Op.selfdestruct h = Progress.Flow.selfdestruct-AsksGas f
  handler-AsksGas f Op.invalid h = absurd (ground arith)
  handler-AsksGas f Op.system h = absurd (ground arith)
  handler-AsksGas f (Op.unknown code) h = AsksGas-raise (unknown_opcode code)
