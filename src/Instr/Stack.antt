-- ===== src/Instr/Stack.antt =====
-- Opcodes 0x5f to 0xa4: PUSH, DUP, SWAP and LOG.
use mathlib.Core.List.{reverse}
use solenoid.Base.{
  ℕ, zero, suc, ◌+◌, ◌-◌, Option, none, some, List, [], ◌∷◌, ◌++◌, length, get_elem?, get_or, set,
  resize, slice, ltb, if◌then◌else◌,
}
use solenoid.Base.Int.{ℤ, pos}
use solenoid.Base.I64.{as_i64, add_i64, mul_i64, add_usize}
use solenoid.Primitives.{Primitives}
use solenoid.Outcome.{
  ok, Done, executor, stack_underflow, missing_data, static_call_violation, invalid_allocation,
}
use solenoid.Word.{Word, zero_word, as_usize, from_bytes}
use solenoid.Types.{is_static}
use solenoid.Evm
use solenoid.Evm.{Evm, allocation_sanity_limit}
use solenoid.Machine.{
  Action, Handler, ◌>>=◌, ◌>>◌, pure, raise, gets, unwrap, on_evm, modify_evm, pop, push, need_gas,
  next,
}
use solenoid.Instr.Frame.{Frame, this_address}

unfoldable pub push0 : Handler
push0 = need_gas (pos 2) do push zero_word; next (pos 2)

-- `if evm.stack.len() < n { evm.error(StackUnderflow)?; }`
unfoldable pub need_stack : ℕ → Action Done
unfolding on_evm
need_stack n s =
    if ltb (length s.evm.stack) n
    then on_evm (Evm.error (executor stack_underflow)) s
    else (ok tt, s)

-- The top and the word `n` places below it change places.
unfoldable pub swap_top : ℕ → List Word → List Word
swap_top n stack = set (set stack 0 (get_or stack n 0)) n (get_or stack 0 0)

unfoldable pub dup : Frame → Handler
dup f = need_gas (pos 3) do
  let n = f.instruction.opcode.n
  need_stack n
  stack ← gets (λ s. s.evm.stack)
  val ← unwrap (get_elem? stack (n - 1))
  push val
  next (pos 3)

unfoldable pub swap : Frame → Handler
swap f = need_gas (pos 3) do
  let n = f.instruction.opcode.n
  need_stack (n + 1)
  modify_evm (λ evm. record evm { stack = swap_top n evm.stack })
  next (pos 3)

unfoldable pub pop_many : ℕ → Action (List Word)
pop_many zero = pure []
pop_many (suc n) = do w ← pop; rest ← pop_many n; pure (w ∷ rest)

-- The data of a log: the range of the memory, or, where that ends past the memory, all of the
-- memory from its start, filled up with zeros.
unfoldable pub log_data : ℕ → ℕ → List ℕ → Action (List ℕ)
unfolding unwrap
log_data offset size memory =
    let end = add_usize offset size in
    if ltb (length memory) end
    then if ltb allocation_sanity_limit end
      then raise (invalid_allocation end)
      else pure (resize end 0 memory)
    else unwrap (slice offset end memory)

abbrev pub log_cost : ℕ → ℕ → ℤ
log_cost n size =
    add_i64 (pos 375) (add_i64 (mul_i64 (pos 375) (pos n)) (mul_i64 (pos 8) (as_i64 size)))

-- `instruction.argument.as_ref().ok_or(MissingData)?`
unfoldable pub or_missing : Option (List ℕ) → Action (List ℕ)
or_missing none = raise missing_data
or_missing (some arg) = pure arg

module _ ⦃prim : Primitives⦄ (f : Frame) where
  unfoldable pub push_n : Handler
  push_n =
      need_gas (pos 3)
        do arg ← or_missing f.instruction.argument; push (from_bytes arg); next (pos 3)

  unfoldable pub log : Handler
  unfolding pop_many
  log =
      if is_static f.ctx.call_type
      then raise (static_call_violation f.instruction.opcode.code)
      else (do
        let n = f.instruction.opcode.n
        top ← on_evm (Evm.peek 2)
        offset ← unwrap (as_usize (get_or top 0 0))
        size ← unwrap (as_usize (get_or top 1 0))
        need_gas (log_cost n size) do
          _ ← pop
          _ ← pop
          topics ← pop_many n
          memory ← gets (λ s. s.evm.memory)
          payload ← log_data offset size memory
          modify_evm (λ evm. record evm {
            logs =
                evm.logs
                ++ record { address = this_address f; topics = reverse topics; payload = payload }
                  ∷ [];
          })
          next (log_cost n size))
