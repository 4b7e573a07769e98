-- ===== src/Instr/Env.antt =====
-- Opcodes 0x20 and 0x30 to 0x3f: the hash, the call and its environment.
use solenoid.Base.{
  ℕ, ◌+◌, ◌-◌, ◌&&◌, Bool, false, List, ◌++◌, min, length, take, drop, replicate, resize, slice,
  ltb, leb, ◌==◌, ◌||◌, if◌then◌else◌, ◌/◌,
}
use solenoid.Base.Int.{ℤ, pos}
use solenoid.Base.I64.{as_i64, add_i64, mul_i64, add_usize, div_ceil, two64}
use solenoid.Primitives.{Primitives}
use solenoid.Outcome.{ok, Done, invalid_allocation}
use solenoid.Word.{zero_word, as_usize, from_bytes}
use solenoid.Types.{Address, AccountTouch, address_of_word, word_of_address, is_static}
use solenoid.Event.{event}
use solenoid.Event
use solenoid.Ext.{is_address_warm, warm_address, code, balance}
use solenoid.Ext.Slot
use solenoid.Evm.{allocation_sanity_limit}
use solenoid.Machine.{
  Action, Handler, ◌>>=◌, ◌>>◌, pure, raise, gets, unwrap, on_ext, modify_ext, touch, trace, pop,
  push, memory_expansion_cost, need_gas, next,
}
use solenoid.Instr.Frame.{
  Frame, this_address, expand, padded, read_memory, write_memory, copy_cost, pop_usize,
}

-- `precompiles::is_precompile`: the addresses 1 to 10 and 256, by the number of their bytes.
unfoldable pub is_precompile : Address → Bool
is_precompile a = leb 1 a && leb a 10 || a == 0x100

-- `Evm::address_access_cost`: a cold address becomes warm, and the touch is noted at once.
unfoldable pub address_access_cost : Address → Action ℤ
unfolding is_precompile modify_ext touch
address_access_cost a s =
    if is_precompile a
    then (ok (pos 100), s)
    else if is_address_warm a s.ext
    then (ok (pos 100), s)
    else (do
      modify_ext (λ ext. (warm_address a ext).1)
      touch (AccountTouch.warm_up a)
      pure (pos 2600))
        s

abbrev max_usize_half : ℕ
max_usize_half = (two64 - 1) / 2

-- `x.resize(end, 0)` behind the sanity check, when `x` ends before `end`.
unfoldable pub expand_buffer : ℕ → ℕ → List ℕ → Action (List ℕ)
expand_buffer end size bytes s =
    if ltb (length bytes) end
    then if ltb allocation_sanity_limit end
      then raise (invalid_allocation end) s
      else (ok (resize size 0 bytes), s)
    else (ok bytes, s)

-- The bytes of CALLDATALOAD from an offset within the call data, filled up with zeros.
unfoldable pub call_word : ℕ → List ℕ → List ℕ
call_word offset input =
    let copy = min (length input) (offset + 32) - offset in
    take copy (drop offset input) ++ replicate (32 - copy) 0

module _ ⦃prim : Primitives⦄ (f : Frame) where
  unfoldable pub sha3 : Handler
  sha3 = do
    offset ← pop_usize
    size ← pop_usize
    oversized ← gets (λ _. ltb allocation_sanity_limit size)
    _ ← (if oversized then raise (invalid_allocation (add_usize offset size)) else pure tt)
    memory ← gets (λ s. s.evm.memory)
    let data' = resize size 0 (take size (drop offset memory))
    let hash = prim.keccak data'
    trace (event (Event.hash data' hash) f.ctx.depth false)
    let gas = add_i64 (pos 30) (mul_i64 (pos 6) (as_i64 (div_ceil size 32)))
    need_gas gas do push (from_bytes hash); next gas

  unfoldable pub address : Handler
  address = need_gas (pos 2) do push (word_of_address (this_address f)); next (pos 2)

  unfoldable pub balance_op : Handler
  balance_op = do
    w ← pop
    let a = address_of_word w
    gas ← address_access_cost a
    need_gas gas
        do value ← on_ext (balance a); touch (AccountTouch.get_value a value); push value; next gas

  unfoldable pub origin : Handler
  origin = need_gas (pos 2) do push (word_of_address f.ctx.origin); next (pos 2)

  unfoldable pub caller : Handler
  caller = need_gas (pos 2) do push (word_of_address f.call.sender); next (pos 2)

  unfoldable pub callvalue : Handler
  callvalue =
      need_gas (pos 2)
        do push (if is_static f.ctx.call_type then zero_word else f.call.value); next (pos 2)

  unfoldable pub calldataload : Handler
  calldataload = need_gas (pos 3) do
    offset ← pop_usize
    push (
        if ltb (length f.call.input) offset
        then zero_word
        else from_bytes (call_word offset f.call.input))
    next (pos 3)

  unfoldable pub calldatasize : Handler
  calldatasize = need_gas (pos 2) do push (length f.call.input); next (pos 2)

  -- `memory[dest..dest + size].copy_from_slice(&bytes[offset..offset + size])`
  unfoldable pub copy_to_memory : ℕ → ℕ → ℕ → List ℕ → Action Done
  copy_to_memory dest offset size bytes = do
    part ← unwrap (slice offset (add_usize offset size) bytes)
    write_memory dest (add_usize dest size) part

  unfoldable pub calldatacopy : Handler
  calldatacopy = do
    dest ← pop_usize
    offset ← pop_usize
    w ← pop
    size ← unwrap (as_usize (min w max_usize_half))
    _ ← (if ltb 0 size then expand (add_usize dest size) else pure tt)
    let end = add_usize offset size
    buffer ← (if ltb 0 size then expand_buffer end (padded end) f.call.input else pure f.call.input)
    _ ← (if ltb 0 size then copy_to_memory dest offset size buffer else pure tt)
    expansion ← memory_expansion_cost
    next (add_i64 (add_i64 (pos 3) (copy_cost size)) expansion)

  unfoldable pub codesize : Handler
  codesize = need_gas (pos 2) do push (length f.code.bytecode); next (pos 2)

  -- The common part of CODECOPY and EXTCODECOPY, with the code that is copied from.
  unfoldable pub copy_code : ℕ → ℕ → ℕ → List ℕ → Action Done
  copy_code dest offset size bytes = do
    expand (add_usize dest size)
    let end = add_usize offset size
    buffer ← expand_buffer end end bytes
    copy_to_memory dest offset size buffer

  unfoldable pub codecopy : Handler
  codecopy = do
    dest ← pop_usize
    offset ← pop_usize
    size ← pop_usize
    copy_code dest offset size f.code.bytecode
    expansion ← memory_expansion_cost
    next (add_i64 (add_i64 (pos 3) (copy_cost size)) expansion)

  unfoldable pub gasprice : Handler
  gasprice =
      need_gas (pos 2) do price ← gets (λ s. s.ext.tx_ctx.gas_price); push price; next (pos 2)

  unfoldable pub extcodesize : Handler
  extcodesize = do
    w ← pop
    let a = address_of_word w
    gas ← address_access_cost a
    need_gas gas do
      (bytes, codehash) ← on_ext (code a)
      touch (AccountTouch.get_code a codehash bytes)
      push (length bytes)
      next gas

  unfoldable pub extcodecopy : Handler
  extcodecopy = do
    w ← pop
    let a = address_of_word w
    dest ← pop_usize
    offset ← pop_usize
    size ← pop_usize
    (bytes, codehash) ← on_ext (code a)
    touch (AccountTouch.get_code a codehash bytes)
    copy_code dest offset size bytes
    expansion ← memory_expansion_cost
    access ← address_access_cost a
    next (add_i64 (add_i64 (copy_cost size) expansion) access)

  unfoldable pub returndatasize : Handler
  returndatasize = need_gas (pos 2) do ret ← gets (λ s. s.exec.ret); push (length ret); next (pos 2)

  -- The available return data, and zeros behind it.
  unfoldable pub returndatacopy : Handler
  returndatacopy = do
    dest ← pop_usize
    offset ← pop_usize
    size ← pop_usize
    expand (add_usize dest size)
    ret ← gets (λ s. s.exec.ret)
    let to_copy = min size (length ret - offset)
    let middle = add_usize dest to_copy
    _ ←
        (if ltb 0 to_copy
          then (do
            part ← unwrap (slice offset (offset + to_copy) ret)
            write_memory dest middle part)
          else pure tt)
    _ ←
        (if ltb to_copy size
          then (do
            rest ← read_memory middle (add_usize dest size)
            write_memory middle (add_usize dest size) (replicate (length rest) 0))
          else pure tt)
    expansion ← memory_expansion_cost
    next (add_i64 (add_i64 (pos 3) (copy_cost size)) expansion)

  unfoldable pub extcodehash : Handler
  extcodehash = do
    w ← pop
    let a = address_of_word w
    gas ← address_access_cost a
    need_gas gas do
      (bytes, hash) ← on_ext (code a)
      touch (AccountTouch.get_code a hash bytes)
      empty ← on_ext (Slot.is_empty a)
      push (if empty then zero_word else hash)
      next gas
