-- ===== src/Tests/Data.antt =====
-- The concrete machines, codes and world states of the tests.
use solenoid.Base.{ℕ, false, none, some, List, [], ◌∷◌}
use solenoid.Base.Int.{ℤ}
use solenoid.Outcome.{panic}
use solenoid.Word.{Word}
use solenoid.Types.{Header, Call, CallType, Context}
use solenoid.Gas
use solenoid.Gas.{Gas}
use solenoid.Maps.{empty_map, insert}
use solenoid.Ext.{Account, Ext, TxContext}
use solenoid.Evm
use solenoid.Machine.{Machine, Handler}
use solenoid.Opcodes.{opcode}
use solenoid.Decoder.{decode}
use solenoid.Instr.Frame.{Frame}

-- PUSH1 4, JUMP, INVALID, JUMPDEST, STOP
abbrev pub jumping : List ℕ
jumping = 0x60 ∷ 0x04 ∷ 0x56 ∷ 0xfe ∷ 0x5b ∷ 0x00 ∷ []

abbrev pub header : Header
header = record {
  number = 100;
  hash = 7;
  timestamp = 1700000000;
  base_fee = 10;
  gas_limit = 30000000;
  gas_used = 0;
  blob_gas_used = 0;
  excess_blob_gas = 0;
  miner = 0xbeef;
}

abbrev pub context : Context
context = record {
  created = 0;
  origin = 0xaa;
  depth = 1;
  call_type = CallType.call;
  is_static_call = false;
}

abbrev pub call : Call
call = record { input = []; value = 0; sender = 0xaa; to = 0xcc; gas = 100000 }

-- A frame of the account 0xcc at the first instruction of `jumping`.
abbrev pub frame : Frame
frame = record {
  code = decode jumping;
  call = call;
  ctx = context;
  instruction = record { opcode = opcode 0x60 "PUSH_" 1; offset = 0; argument = some (4 ∷ []) };
}

abbrev pub contract : Account
contract = record {
  value = 50;
  nonce = 1;
  root = 0;
  code = (jumping, 0);
  storage = insert 3 9 empty_map;
}

abbrev tx_context : TxContext
tx_context = record {
  gas_price = 10;
  gas_max_fee = 20;
  blob_max_fee = 0;
  gas_max_priority_fee = 1;
  blob_gas_used = 0;
  access_list = [];
}

-- A local world with one account, whose slot 3 holds 9.
abbrev pub world : Ext
world = record {
  remote = none;
  state = insert 0xcc contract empty_map;
  original = λ _ _. none;
  transient = λ _ _. none;
  accessed_addresses = λ _. false;
  accessed_storage = λ _ _. false;
  created_accounts = [];
  destroyed_accounts = [];
  tx_ctx = tx_context;
}

abbrev pub with : List Word → ℤ → Machine
with stack gas = record {
  exec = record { header = header; tracer = []; ret = [] };
  evm = record (Evm.new (Gas.new gas)) { stack = stack };
  ext = world;
}

-- Arms for the calls, which the tests do not reach.
abbrev pub no_calls : Frame → Handler
no_calls f s = (panic, s)
