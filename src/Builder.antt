-- ===== src/Builder.antt =====
-- src/solenoid.rs: the builders of transactions, and `Runner::apply`, which runs them.
pub mod Create
pub mod Execute
pub mod Transfer
pub mod Apply
use solenoid.Base.{ℕ, List, [], take, ◌++◌, length, ◌==◌, if◌then◌else◌}
use solenoid.Primitives.{Primitives}
use solenoid.Word.{Word}
use solenoid.Types.{Address, Header, Call}

pub record Runner : Type 0 where
  pub header : Header
  pub call : Call
  pub code : List ℕ

-- `Header::default()`
abbrev pub no_header : Header
no_header = record {
  number = 0;
  hash = 0;
  timestamp = 0;
  base_fee = 0;
  gas_limit = 0;
  gas_used = 0;
  blob_gas_used = 0;
  excess_blob_gas = 0;
  miner = 0;
}

-- The trait `Builder`.
pub record Builder (B : Type 0) : Type 0 where
  pub with_header : Header → B → B
  pub with_sender : Address → B → B
  pub with_value : Word → B → B
  pub with_gas : Word → B → B
  pub ready : B → Runner

-- The data of `Solenoid::execute`: the first four bytes of the hash of the method, if one is named,
-- and the arguments.
module _ ⦃prim : Primitives⦄ where
  unfoldable pub call_data : List ℕ → List ℕ → List ℕ
  call_data method args = if length method == 0 then args else take 4 (prim.keccak method) ++ args
