-- ===== src/Outcome.antt =====
-- How a call ends: `ExecutorError` of src/executor.rs, the errors of src/ext.rs, and panics.
use solenoid.Base.{ℕ, Option, none, some}

pub data ExecutorError : Type 0 where
  stack_overflow stack_underflow call_depth_limit_reached missing_data out_of_gas : ExecutorError
  out_of_memory invalid_jump invalid_opcode unknown_opcode : ℕ → ExecutorError
  static_call_violation invalid_allocation : ℕ → ExecutorError
  wrong_return_data_size insufficient_funds : ℕ → ℕ → ExecutorError

-- An `eyre::Report`: an executor error, the failure of a request for remote state, or that of a
-- precompiled contract.
pub data Report : Type 0 where
  executor : ExecutorError → Report
  pull_failed : ℕ → Report
  remote_failed : Report
  precompile_failed : Report

-- `panic` is a Rust panic: an arithmetic check of a crate, or an index out of range. `unfinished`
-- is no behaviour of the program: the fuel of a loop of the model ran out.
pub data Outcome {ℓ} (A : Type ℓ) : Type ℓ where
  ok : A → Outcome A
  err : Report → Outcome A
  panic : Outcome A
  unfinished : Outcome A

-- A value that a crate computes or panics on.
abbrev pub or_panic {ℓ} : {A : Type ℓ} → Option A → Outcome A
or_panic none = panic
or_panic (some a) = ok a

-- The answer of a remote node, or its failure.
abbrev pub or_remote_failed {ℓ} : {A : Type ℓ} → Option A → Outcome A
or_remote_failed none = err remote_failed
or_remote_failed (some a) = ok a

-- The result of a call that returns nothing.
abbrev pub Done : Type 0
Done = Unit
