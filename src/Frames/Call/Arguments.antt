-- ===== src/Frames/Call/Arguments.antt =====
-- The first half of `call` of src/executor.rs: the words it pops, the memory it needs, and the code
-- that it finds.
use solenoid.Base.{
  ℕ, ◌-◌, ◌*◌, ◌^◌, Bool, List, max, min, length, drop, resize, get_or, ltb, ◌==◌, ◌&&◌,
  if◌then◌else◌,
}
use solenoid.Base.Int.{ℤ, pos}
use solenoid.Base.I64.{add_i64, sub_i64, add_usize, div_ceil}
use solenoid.Primitives.{Primitives}
use solenoid.Primitives.Bytes.{be_value}
use solenoid.Outcome.{ok, Done, invalid_allocation}
use solenoid.Word.{Word, zero_word}
use solenoid.Types.{Address, AccountTouch, address_of_word, is_static}
use solenoid.Ext.{code}
use solenoid.Evm.{allocation_sanity_limit}
use solenoid.Machine.{Action, ◌>>=◌, ◌>>◌, pure, raise, modify_evm, on_ext, touch, pop}
use solenoid.Instr.Frame.{Frame, memory_size, set_memory, pop_usize}
use solenoid.Instr.Env.{address_access_cost}
use solenoid.Frames.Transfer.{is_delegate}

-- `gas` is at most `i64::MAX`.
pub record CallArgs : Type 0 where
  pub gas : ℕ
  pub address : Address
  pub value : Word
  pub args_offset : ℕ
  pub args_size : ℕ
  pub ret_offset : ℕ
  pub ret_size : ℕ

-- The value of STATICCALL is zero, and that of DELEGATECALL is the caller's.
unfoldable pub pop_value : Frame → Action Word
unfolding pop
pop_value f =
    if is_static f.ctx.call_type
    then pure zero_word
    else if is_delegate f.ctx.call_type
    then pure f.call.value
    else pop

module _ ⦃prim : Primitives⦄ where
  unfoldable pub pop_args : Frame → Action CallArgs
  unfolding pop_value
  pop_args f = do
    gas ← pop
    w ← pop
    value ← pop_value f
    args_offset ← pop_usize
    args_size ← pop_usize
    ret_offset ← pop_usize
    ret_size ← pop_usize
    pure (record {
      gas = min gas (2 ^ 63 - 1);
      address = address_of_word w;
      value = value;
      args_offset = args_offset;
      args_size = args_size;
      ret_offset = ret_offset;
      ret_size = ret_size;
    })

-- The end of a range, 0 when it is empty.
abbrev pub range_end : ℕ → ℕ → ℕ
range_end offset size = if ltb 0 size then add_usize offset size else 0

-- Memory grows to a whole number of words that holds `size` bytes.
unfoldable pub expand_to : ℕ → Action Done
unfolding modify_evm
expand_to size s =
    if ltb (memory_size s) size
    then if ltb allocation_sanity_limit size
      then raise (invalid_allocation size) s
      else modify_evm (set_memory (resize (div_ceil size 32 * 32) 0 s.evm.memory)) s
    else (ok tt, s)

-- For the arguments and the return data.
unfoldable pub expand_call : CallArgs → Action Done
unfolding expand_to
expand_call args =
    expand_to
      (max (range_end args.args_offset args.args_size) (range_end args.ret_offset args.ret_size))

-- 0xef0100 and an address.
abbrev pub is_delegation : List ℕ → Bool
is_delegation code =
    length code == 23
    && get_or code 0 0 == 0xef
    && get_or code 1 0 == 0x01
    && get_or code 2 0 == 0x00

abbrev pub delegation_target : List ℕ → Address
delegation_target code = be_value (drop 3 code)

module _ ⦃prim : Primitives⦄ where
  -- The code of the address, or of the address it delegates to; the hash of its own code; the cost.
  unfoldable pub resolve_code : Address → Action (List ℕ × Word × ℤ)
  resolve_code a = do
    (own, hash) ← on_ext (code a)
    touch (AccountTouch.get_code a hash own)
    access ← address_access_cost a
    (if is_delegation own
        then (do
          let target = delegation_target own
          (found, target_hash) ← on_ext (code target)
          touch (AccountTouch.get_code target target_hash found)
          target_cost ← address_access_cost target
          pure (found, hash, add_i64 (add_i64 access (pos 100)) (sub_i64 target_cost (pos 100))))
        else pure (own, hash, access))
