-- ===== src/Instr/Memory.antt =====
-- Opcodes 0x50 to 0x53 and 0x5e: POP and the memory.
use solenoid.Base.{
  ℕ, ◌+◌, ◌-◌, ◌%◌, ◌^◌, List, [], ◌∷◌, min, max, length, resize, slice, get_or, ltb, leb,
  if◌then◌else◌,
}
use mathlib.Core.List.{reverse}
use solenoid.Base.Int.{ℤ, pos}
use solenoid.Base.I64.{add_i64, add_usize}
use solenoid.Primitives.{Primitives}
use solenoid.Outcome.{ok, panic, Done, invalid_allocation}
use solenoid.Word.{into_bytes, from_bytes}
use solenoid.Evm.{allocation_sanity_limit}
use solenoid.Machine.{
  Action, Handler, ◌>>=◌, ◌>>◌, pure, raise, gets, unwrap, modify_evm, pop, push,
  memory_expansion_cost, need_gas, next,
}
use solenoid.Instr.Frame.{
  memory_size, set_memory, grow, expand, read_memory, write_memory, copy_cost, pop_usize,
}

-- POP
unfoldable pub pop_op : Handler
pop_op = need_gas (pos 2) do _ ← pop; next (pos 2)

-- `gas = 3; gas += evm.memory_expansion_cost();`
unfoldable pub access_gas : Action ℤ
unfolding memory_expansion_cost
access_gas = do expansion ← memory_expansion_cost; pure (add_i64 (pos 3) expansion)

-- The bytes that MCOPY moves: those of the memory, and zeros behind its end.
unfoldable pub move_buffer : ℕ → ℕ → List ℕ → Action (List ℕ)
unfolding unwrap
move_buffer offset size memory =
    let end = add_usize offset size in
    if leb end (length memory) then unwrap (slice offset end memory) else (do
      part ← unwrap (slice offset (min (length memory) end) memory)
      pure (resize size 0 part))

-- The growth of MCOPY: the check looks at the destination only. A `Vec` of more than `isize::MAX`
-- bytes is a panic.
unfoldable pub expand_move : ℕ → ℕ → Action Done
unfolding modify_evm
expand_move len dest_end s =
    if ltb (memory_size s) len
    then if ltb allocation_sanity_limit dest_end
      then raise (invalid_allocation dest_end) s
      else if leb (2 ^ 63) (add_usize len ((32 - len % 32) % 32))
      then (panic, s)
      else modify_evm (set_memory (resize (add_usize len ((32 - len % 32) % 32)) 0 s.evm.memory)) s
    else (ok tt, s)

-- The growth of MSTORE8, whose test is on the offset.
unfoldable pub expand_byte : ℕ → Action Done
unfolding grow
expand_byte offset s =
    if leb (memory_size s) offset then grow (add_usize offset 1) s else (ok tt, s)

module _ ⦃prim : Primitives⦄ where
  unfoldable pub mload : Handler
  mload = do
    offset ← pop_usize
    let end = add_usize offset 32
    expand end
    gas ← access_gas
    need_gas gas do bytes ← read_memory offset end; push (from_bytes bytes); next gas

  unfoldable pub mstore : Handler
  mstore = do
    offset ← pop_usize
    value ← pop
    let end = add_usize offset 32
    expand end
    gas ← access_gas
    need_gas gas do write_memory offset end (into_bytes value); next gas

  unfoldable pub mstore8 : Handler
  mstore8 = do
    offset ← pop_usize
    value ← pop
    expand_byte offset
    gas ← access_gas
    need_gas gas
        do write_memory offset (offset + 1) (get_or (reverse (into_bytes value)) 0 0 ∷ []); next gas

  unfoldable pub mcopy : Handler
  mcopy = do
    dest ← pop_usize
    offset ← pop_usize
    size ← pop_usize
    let base = add_i64 (pos 3) (copy_cost size)
    need_gas base (
        if ltb 0 size
        then (do
          let dest_end = add_usize dest size
          expand_move (max dest_end (add_usize offset size)) dest_end
          memory ← gets (λ s. s.evm.memory)
          buffer ← move_buffer offset size memory
          expansion ← memory_expansion_cost
          need_gas (add_i64 base expansion)
              do write_memory dest dest_end buffer; next (add_i64 base expansion))
        else next base)
