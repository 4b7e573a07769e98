-- ===== src/Evm.antt =====
-- `Evm` of src/executor.rs: the memory, the stack and the accounting of one frame, with its
-- methods. The stack is a list with the top first, where the source has it last in a `Vec`.
pub mod Revert
use solenoid.Base.{
  ℕ, ◌+◌, ◌*◌, ◌%◌, ◌-◌, ◌≤◌, Bool, true, false, Option, none, some, List, [], ◌∷◌, ◌++◌, length,
  take, resize, ltb, leb, if◌then◌else◌,
}
use solenoid.Base.Int.{ℤ, pos}
use solenoid.Base.I64.{as_i64, add_i64, sub_i64, mul_i64, div_i64, div_ceil}
use solenoid.Outcome.{
  Report, Outcome, ok, err, panic, unfinished, executor, stack_overflow, stack_underflow, Done,
}
use solenoid.Word.{Word}
use solenoid.Gas
use solenoid.Gas.{Gas}
use solenoid.Types.{Address, Log, AccountTouch}

abbrev pub stack_limit : ℕ
stack_limit = 1024

abbrev pub call_depth_limit : ℕ
call_depth_limit = 1024

abbrev pub allocation_sanity_limit : ℕ
allocation_sanity_limit = 2 * 1024 * 1024

pub record Evm : Type 0 where
  pub memory : List ℕ
  pub stack : List Word
  pub gas : Gas
  pub pc : ℕ
  pub stopped : Bool
  pub reverted : Bool
  pub logs : List Log
  pub touches : List AccountTouch
  pub mem_cost : ℤ
  pub refund : ℤ

-- A frame with this gas and nothing else.
abbrev pub new : Gas → Evm
new gas = record {
  memory = [];
  stack = [];
  gas = gas;
  pc = 0;
  stopped = false;
  reverted = false;
  logs = [];
  touches = [];
  mem_cost = pos 0;
  refund = pos 0;
}

abbrev pub Method : Type 0 → Type 0
Method A = Evm → Outcome A × Evm

-- An exceptional halt uses up the gas.
unfoldable pub error {ℓ} : {A : Type ℓ} → Report → Evm → Outcome A × Evm
error e evm = (
  err e,
  record evm {
    stopped = true;
    reverted = true;
    gas = record evm.gas { used = add_i64 evm.gas.used (Gas.remaining evm.gas) };
  },
)

unfoldable pub push : Word → Method Done
unfolding error
push value evm =
    if leb stack_limit (length evm.stack)
    then error (executor stack_overflow) evm
    else (ok tt, record evm { stack = value ∷ evm.stack })

pop_from : List Word → Method Word
pop_from [] evm = error (executor stack_underflow) evm
pop_from (word ∷ rest) evm = (ok word, record evm { stack = rest })

unfoldable pub pop : Method Word
unfolding pop_from error
pop evm = pop_from evm.stack evm

-- `peek::<N>`: the top `n` words.
unfoldable pub peek : ℕ → Method (List Word)
unfolding error
peek n evm =
    if ltb (length evm.stack) n
    then error (executor stack_underflow) evm
    else (ok (take n evm.stack), evm)

-- `Evm::gas`
unfoldable pub charge : ℤ → Method Done
unfolding error
charge cost evm =
    let (r, gas) = Gas.charge evm.gas cost in
    let evm' : Evm = record evm { gas = gas } in
    elim r [
      | ok _ ↦ (ok tt, evm')
      | err e ↦ error e evm'
      | panic ↦ (panic, evm')
      | unfinished ↦ (unfinished, evm')
    ]

-- The price of a memory of `bytes` bytes.
unfoldable pub memory_price : ℕ → ℤ
memory_price bytes =
    let mem_len = as_i64 (div_ceil bytes 32) in
    add_i64 (div_i64 (mul_i64 mem_len mem_len) 512) (mul_i64 (pos 3) mem_len)

unfoldable pub memory_expansion_cost : Evm → ℤ × Evm
unfolding memory_price
memory_expansion_cost evm =
    let mem_cost = memory_price (length evm.memory) in
    (sub_i64 mem_cost evm.mem_cost, record evm { mem_cost = mem_cost })

abbrev pub touch : AccountTouch → Evm → Evm
touch t evm = record evm { touches = evm.touches ++ t ∷ [] }
