-- ===== src/Lib.antt =====
-- solenoid is an Ethereum virtual machine. `Decoder` turns a bytecode into instructions and a
-- table of jump targets; `Executor` runs them one at a time on a frame, `Evm` (stack, memory,
-- gas, journal of touches), and on the world state, `Ext`, a cache of accounts and slots in
-- front of a node. What a frame did to the world state is taken back by `Evm::revert` from the
-- journal of its touches.
--
-- The files and the code that they model:
--
--   Opcodes: src/opcodes.rs, the table `OPCODES`, `get_opcode`, `push_len`.
--   Decoder: src/decoder.rs, `Decoder::decode` with its loop, and `Bytecode::resolve_jump`.
--   Word: evm-common/src/word.rs. A word is its value, a number below 2 ^ 256.
--   Primitives: the crates primitive-types, i256 and tiny-keccak: a record of operations and of
--     laws that state their documented behaviour, which the models take as an instance argument.
--     `none` is a panic of the crate. Primitives/Native fills the record; its hash is a stand-in.
--   Types, Event: `Address`, `Header`, `Call`, `Context`, `Log`, `AccountTouch`, and the events
--     of evm-event/src/lib.rs with `LoggingTracer` of src/tracer.rs. An address is the number of
--     its bytes.
--   Outcome: `ExecutorError`, and how a call ends: a value, an error or a panic.
--   Gas: `Gas` of src/executor.rs in `i64` arithmetic, with the wrap-around of a release build
--     (Base/I64).
--   Maps, Ext: src/ext.rs, with `HashMap` as a function of its keys. Ext/Slot has `get` and
--     `put` as a build with the default features has them. The node is a record of answers,
--     `Remote`.
--   Evm: `Evm` of src/executor.rs with its methods, and `Evm::revert` in Evm/Revert.
--   Machine: the state of one instruction, the executor with the frame and the world state, and
--     the monad of actions on it. What was written before an error stays written.
--   Instr: the arms of `execute_instruction`, in the files Arith (0x01 to 0x0b), Bits (0x10 to
--     0x1e), Env (0x20 to 0x3f), Block (0x40 to 0x4a), Memory (0x50 to 0x53, 0x5e), Storage (0x54,
--     0x55, 0x5c, 0x5d), Flow (0x00, 0x56 to 0x5b, 0xf3, 0xfd, 0xff) and Stack (0x5f to 0xa4).
--   Step: `execute_instruction`, the match on the opcode. The arms that run another frame are
--     its parameter.
--   Precompiles: src/precompiles.rs, `execute` and `gas_cost`, with the contracts in Hashes,
--     Modexp, Curves and Blake. The crates sha2, ripemd, k256, p256, num-bigint and ark are a
--     record of operations and laws, Precompiles/Interface; Precompiles/Native fills it with
--     stand-ins.
--   Hex: `decode` of evm-common/src/lib.rs, `addr` of evm-common/src/address.rs and `word` of
--     evm-common/src/word.rs. A string is the list of its bytes.
--   Builder: src/solenoid.rs, a child for each builder; Builder/Apply and its child Creation:
--     `Runner::apply` for calls and for creations.
--   RpcProxy: rpc-proxy/src; RpcProxy/Retry: `retry` of retry.rs. The operation that is repeated
--     is the sequence of its answers, and the result holds the delays. RpcProxy/Cache, Encoding
--     and Paths: cache.rs, with the crates hex, yakvdb and flate2 and the file system as the
--     records of RpcProxy/Crates. A store of a storage is kept with the address in the map, and a
--     file is written whole or not at all. RpcProxy/Handler and its child Requests: the handlers
--     of main.rs; a request for a cached method is first turned into a `Query`. JSON values and
--     the upstream are records and functions of RpcProxy/Web. The locks are left out: each request
--     runs alone.
--   Address: `Address::create` and `create2` of evm-common/src/address.rs.
--   Frames: the frames of src/executor.rs. Call and Create are `call` and `create`, System their
--     opcodes, Loop is `execute_with_context`, Inner the frame inside a frame, Transfer the
--     transfer of value, Report the trace. `run` ties the knot.
--   Transaction: `execute` of src/executor.rs, with its costs and fees in Transaction/Fees.
--   Tests: the theorems at concrete inputs.
--
-- The stack is a list with its top first. A definition has the name that its function or type
-- has in the source, or that of its opcode.
--
-- Loops and fuel. `decode_loop` has a round for each byte: every round passes at least one.
-- `exponential_loop` has 2 * (factor / denominator) + 132 rounds: after the first 2 * (factor /
-- denominator) + 3 the numerator at least halves in each round, and it has 128 bits. The loop of
-- a frame, `steps`, takes one unit of fuel for each round, and `run` takes a number of levels
-- for frames in frames; without enough of them the outcome is `unfinished`, which is no outcome
-- of the program. 1025 levels are enough for any frame, since past the depth of 1024 no
-- instruction runs. For code without KECCAK256, LOG, copies, MLOAD, MSTORE, MSTORE8 and without
-- instructions that run another frame, the gas that is left and two rounds more are enough. How
-- much is enough for other code is left open: the prices of a memory beyond the sanity limit,
-- which MCOPY may grow, wrap around.
--
-- Not modelled: the debug values of the executor and its log flag, which nothing reads back, but
-- for the slices of memory in them, which may panic; the node client, the allocator, the
-- printing of hex strings, the comparison with revm, the start of the RPC proxy, and the WASM
-- demo.
pub mod Base
pub mod Primitives
pub mod Opcodes
pub mod Decoder
pub mod Outcome
pub mod Word
pub mod Gas
pub mod Maps
pub mod Types
pub mod Event
pub mod Ext
pub mod Evm
pub mod Machine
pub mod Instr
pub mod Precompiles
pub mod Address
pub mod Hex
pub mod RpcProxy
pub mod Builder
pub mod Frames
pub mod Transaction
pub mod Step
pub mod Tests
