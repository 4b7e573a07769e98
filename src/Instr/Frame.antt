-- ===== src/Instr/Frame.antt =====
-- What an instruction reads besides the machine, and the access to memory that the arms of
-- `execute_instruction` share.
use solenoid.Base.{ℕ, ◌+◌, ◌-◌, ◌%◌, List, length, resize, slice, copy_into, ltb, if◌then◌else◌}
use solenoid.Base.Int.{ℤ, pos}
use solenoid.Base.I64.{as_i64, mul_i64, div_ceil}
use solenoid.Primitives.{Primitives}
use solenoid.Outcome.{ok, Done, invalid_allocation}
use solenoid.Word.{as_usize}
use solenoid.Types.{Address, Call, Context, is_zero_address}
use solenoid.Decoder.{Bytecode, Instruction}
use solenoid.Evm.{Evm, allocation_sanity_limit}
use solenoid.Machine.{Machine, Action, ◌>>=◌, raise, unwrap, modify_evm, pop}

pub record Frame : Type 0 where
  pub code : Bytecode
  pub call : Call
  pub ctx : Context
  pub instruction : Instruction

-- The account that runs: the created one while `to` is zero.
abbrev pub this_address : Frame → Address
this_address f = if is_zero_address f.call.to then f.ctx.created else f.call.to

abbrev pub memory_size : Machine → ℕ
memory_size s = length s.evm.memory

abbrev pub set_memory : List ℕ → Evm → Evm
set_memory bytes evm = record evm { memory = bytes }

-- The size up to which memory grows to hold `end` bytes: whole words of 32.
abbrev pub padded : ℕ → ℕ
padded end = end + (32 - end % 32) % 32

-- `evm.memory.resize(end + padding % 32, 0)` behind the sanity check.
unfoldable pub grow : ℕ → Action Done
unfolding modify_evm
grow end s =
    if ltb allocation_sanity_limit end
    then raise (invalid_allocation end) s
    else modify_evm (set_memory (resize (padded end) 0 s.evm.memory)) s

-- Memory grows to hold `end` bytes, unless it does already.
unfoldable pub expand : ℕ → Action Done
unfolding grow
expand end s = if ltb (memory_size s) end then grow end s else (ok tt, s)

-- `memory[from..till].to_vec()`
unfoldable pub read_memory : ℕ → ℕ → Action (List ℕ)
unfolding unwrap
read_memory from till s = unwrap (slice from till s.evm.memory) s

-- `memory[from..till].copy_from_slice(part)`
unfoldable pub write_memory : ℕ → ℕ → List ℕ → Action Done
unfolding unwrap modify_evm
write_memory from till part s =
    (do bytes ← unwrap (copy_into from till part s.evm.memory); modify_evm (set_memory bytes)) s

-- `3 * size.div_ceil(32) as i64`
abbrev pub copy_cost : ℕ → ℤ
copy_cost size = mul_i64 (pos 3) (as_i64 (div_ceil size 32))

module _ ⦃prim : Primitives⦄ where
  -- `evm.pop()?.as_usize()`
  unfoldable pub pop_usize : Action ℕ
  unfolding pop unwrap
  pop_usize = do w ← pop; unwrap (as_usize w)
