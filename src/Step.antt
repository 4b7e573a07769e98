-- ===== src/Step.antt =====
-- `execute_instruction` of src/executor.rs: the arm for an opcode. The arms of CALL, CALLCODE,
-- DELEGATECALL, STATICCALL, CREATE and CREATE2, which run another frame, are a parameter.
pub mod Sound
pub mod Invariant
pub mod Progress
pub mod Binary
pub mod BinaryErrors
pub mod Shift
pub mod Push
pub mod Wide
pub mod Modulo
use solenoid.Base.{ℕ, ◌+◌, ◌&&◌, ◌||◌, Bool, true, false, ltb, leb, ◌==◌, if◌then◌else◌}
use solenoid.Base.Int.{pos}
use solenoid.Primitives.{Primitives}
use solenoid.Outcome.{unknown_opcode}
use solenoid.Machine.{Handler, raise, next}
use solenoid.Instr.Frame.{Frame}
use solenoid.Instr.Arith
use solenoid.Instr.Bits
use solenoid.Instr.Env
use solenoid.Instr.Block
use solenoid.Instr.Memory
use solenoid.Instr.Storage
use solenoid.Instr.Flow
use solenoid.Instr.Stack

-- The arms of the match on the opcode.
pub data Op : Type 0 where
  stop add mul sub div sdiv modulo smod addmod mulmod : Op
  exp signextend lt gt slt sgt eq iszero and or : Op
  xor not byte shl shr sar clz sha3 address balance : Op
  origin caller callvalue calldataload calldatasize calldatacopy codesize codecopy gasprice
        extcodesize :
      Op
  extcodecopy returndatasize returndatacopy extcodehash blockhash coinbase timestamp number
        prevrandao gaslimit :
      Op
  chainid selfbalance basefee blobhash blobbasefee pop mload mstore mstore8 sload : Op
  sstore jump jumpi pc msize gas jumpdest tload tstore mcopy : Op
  push0 push dup swap log return revert invalid selfdestruct : Op
  system : Op
  unknown : ℕ → Op

-- CREATE, CALL, CALLCODE, DELEGATECALL, CREATE2 and STATICCALL
abbrev pub is_system : ℕ → Bool
is_system code =
    code == 0xf0 || code == 0xf1 || code == 0xf2 || code == 0xf4 || code == 0xf5 || code == 0xfa

unfoldable pub op_of : ℕ → Op
op_of code =
    if code == 0x00
    then Op.stop
    else if code == 0x01
    then Op.add
    else if code == 0x02
    then Op.mul
    else if code == 0x03
    then Op.sub
    else if code == 0x04
    then Op.div
    else if code == 0x05
    then Op.sdiv
    else if code == 0x06
    then Op.modulo
    else if code == 0x07
    then Op.smod
    else if code == 0x08
    then Op.addmod
    else if code == 0x09
    then Op.mulmod
    else if code == 0x0a
    then Op.exp
    else if code == 0x0b
    then Op.signextend
    else if code == 0x10
    then Op.lt
    else if code == 0x11
    then Op.gt
    else if code == 0x12
    then Op.slt
    else if code == 0x13
    then Op.sgt
    else if code == 0x14
    then Op.eq
    else if code == 0x15
    then Op.iszero
    else if code == 0x16
    then Op.and
    else if code == 0x17
    then Op.or
    else if code == 0x18
    then Op.xor
    else if code == 0x19
    then Op.not
    else if code == 0x1a
    then Op.byte
    else if code == 0x1b
    then Op.shl
    else if code == 0x1c
    then Op.shr
    else if code == 0x1d
    then Op.sar
    else if code == 0x1e
    then Op.clz
    else if code == 0x20
    then Op.sha3
    else if code == 0x30
    then Op.address
    else if code == 0x31
    then Op.balance
    else if code == 0x32
    then Op.origin
    else if code == 0x33
    then Op.caller
    else if code == 0x34
    then Op.callvalue
    else if code == 0x35
    then Op.calldataload
    else if code == 0x36
    then Op.calldatasize
    else if code == 0x37
    then Op.calldatacopy
    else if code == 0x38
    then Op.codesize
    else if code == 0x39
    then Op.codecopy
    else if code == 0x3a
    then Op.gasprice
    else if code == 0x3b
    then Op.extcodesize
    else if code == 0x3c
    then Op.extcodecopy
    else if code == 0x3d
    then Op.returndatasize
    else if code == 0x3e
    then Op.returndatacopy
    else if code == 0x3f
    then Op.extcodehash
    else if code == 0x40
    then Op.blockhash
    else if code == 0x41
    then Op.coinbase
    else if code == 0x42
    then Op.timestamp
    else if code == 0x43
    then Op.number
    else if code == 0x44
    then Op.prevrandao
    else if code == 0x45
    then Op.gaslimit
    else if code == 0x46
    then Op.chainid
    else if code == 0x47
    then Op.selfbalance
    else if code == 0x48
    then Op.basefee
    else if code == 0x49
    then Op.blobhash
    else if code == 0x4a
    then Op.blobbasefee
    else if code == 0x50
    then Op.pop
    else if code == 0x51
    then Op.mload
    else if code == 0x52
    then Op.mstore
    else if code == 0x53
    then Op.mstore8
    else if code == 0x54
    then Op.sload
    else if code == 0x55
    then Op.sstore
    else if code == 0x56
    then Op.jump
    else if code == 0x57
    then Op.jumpi
    else if code == 0x58
    then Op.pc
    else if code == 0x59
    then Op.msize
    else if code == 0x5a
    then Op.gas
    else if code == 0x5b
    then Op.jumpdest
    else if code == 0x5c
    then Op.tload
    else if code == 0x5d
    then Op.tstore
    else if code == 0x5e
    then Op.mcopy
    else if code == 0x5f
    then Op.push0
    else if leb 0x60 code && ltb code 0x80
    then Op.push
    else if leb 0x80 code && ltb code 0x90
    then Op.dup
    else if leb 0x90 code && ltb code 0xa0
    then Op.swap
    else if leb 0xa0 code && ltb code 0xa5
    then Op.log
    else if code == 0xf3
    then Op.return
    else if code == 0xfd
    then Op.revert
    else if code == 0xfe
    then Op.invalid
    else if code == 0xff
    then Op.selfdestruct
    else if is_system code
    then Op.system
    else Op.unknown code

module _ ⦃prim : Primitives⦄ (system_call : Frame → Handler) where
  unfoldable pub handler : Frame → Op → Handler
  handler f Op.stop = Flow.stop f
  handler f Op.add = Arith.add
  handler f Op.mul = Arith.mul
  handler f Op.sub = Arith.sub
  handler f Op.div = Arith.div
  handler f Op.sdiv = Arith.sdiv
  handler f Op.modulo = Arith.mod'
  handler f Op.smod = Arith.smod
  handler f Op.addmod = Arith.addmod
  handler f Op.mulmod = Arith.mulmod
  handler f Op.exp = Arith.exp
  handler f Op.signextend = Arith.signextend
  handler f Op.lt = Bits.lt
  handler f Op.gt = Bits.gt
  handler f Op.slt = Bits.slt
  handler f Op.sgt = Bits.sgt
  handler f Op.eq = Bits.eq
  handler f Op.iszero = Bits.iszero
  handler f Op.and = Bits.and
  handler f Op.or = Bits.or
  handler f Op.xor = Bits.xor
  handler f Op.not = Bits.not'
  handler f Op.byte = Bits.byte
  handler f Op.shl = Bits.shl
  handler f Op.shr = Bits.shr
  handler f Op.sar = Bits.sar
  handler f Op.clz = Bits.clz
  handler f Op.sha3 = Env.sha3 f
  handler f Op.address = Env.address f
  handler f Op.balance = Env.balance_op f
  handler f Op.origin = Env.origin f
  handler f Op.caller = Env.caller f
  handler f Op.callvalue = Env.callvalue f
  handler f Op.calldataload = Env.calldataload f
  handler f Op.calldatasize = Env.calldatasize f
  handler f Op.calldatacopy = Env.calldatacopy f
  handler f Op.codesize = Env.codesize f
  handler f Op.codecopy = Env.codecopy f
  handler f Op.gasprice = Env.gasprice f
  handler f Op.extcodesize = Env.extcodesize f
  handler f Op.extcodecopy = Env.extcodecopy f
  handler f Op.returndatasize = Env.returndatasize f
  handler f Op.returndatacopy = Env.returndatacopy f
  handler f Op.extcodehash = Env.extcodehash f
  handler f Op.blockhash = Block.blockhash f
  handler f Op.coinbase = Block.coinbase f
  handler f Op.timestamp = Block.timestamp f
  handler f Op.number = Block.number f
  handler f Op.prevrandao = Block.prevrandao f
  handler f Op.gaslimit = Block.gaslimit f
  handler f Op.chainid = Block.chainid f
  handler f Op.selfbalance = Block.selfbalance f
  handler f Op.basefee = Block.basefee f
  handler f Op.blobhash = Block.blobhash f
  handler f Op.blobbasefee = Block.blobbasefee f
  handler f Op.pop = Memory.pop_op
  handler f Op.mload = Memory.mload
  handler f Op.mstore = Memory.mstore
  handler f Op.mstore8 = Memory.mstore8
  handler f Op.sload = Storage.sload f
  handler f Op.sstore = Storage.sstore f
  handler f Op.jump = Flow.jump f
  handler f Op.jumpi = Flow.jumpi f
  handler f Op.pc = Flow.pc_op f
  handler f Op.msize = Flow.msize
  handler f Op.gas = Flow.gas_op
  handler f Op.jumpdest = Flow.jumpdest
  handler f Op.tload = Storage.tload f
  handler f Op.tstore = Storage.tstore f
  handler f Op.mcopy = Memory.mcopy
  handler f Op.push0 = Stack.push0
  handler f Op.push = Stack.push_n f
  handler f Op.dup = Stack.dup f
  handler f Op.swap = Stack.swap f
  handler f Op.log = Stack.log f
  handler f Op.return = Flow.return_op f false
  handler f Op.revert = Flow.return_op f true
  handler f Op.selfdestruct = Flow.selfdestruct f
  handler f Op.invalid = next (pos 0)
  handler f Op.system = system_call f
  handler f (Op.unknown code) = raise (unknown_opcode code)

  unfoldable pub execute_instruction : Frame → Handler
  unfolding op_of handler
  execute_instruction f = handler f (op_of f.instruction.opcode.code)
