-- ===== src/Frames/Create.antt =====
-- `create` of src/executor.rs: CREATE and CREATE2, which run the code of the new account.
pub mod Deploy
use solenoid.Base.{
  ℕ, ◌+◌, Bool, true, false, List, [], ◌∷◌, ◌++◌, length, ltb, leb, ◌&&◌, if◌then◌else◌,
}
use solenoid.Base.Int.{ℤ, pos, leb_ℤ}
use solenoid.Base.I64
use solenoid.Base.I64.{as_i64, add_i64, sub_i64, mul_i64, div_i64, add_usize, div_ceil}
use solenoid.Primitives.{Primitives}
use solenoid.Outcome.{ok, panic, Done}
use solenoid.Word.{Word, zero_word, one_word, as_u64}
use solenoid.Gas
use solenoid.Types.{Address, Call, CallType, AccountTouch}
use solenoid.Event.{EventData, AccountEvent, event}
use solenoid.Decoder.{decode}
use solenoid.Address
use solenoid.Ext.{Ext, warm_address, nonce}
use solenoid.Ext.Slot.{change_account, ensure_account}
use solenoid.Machine.{
  Action, ◌>>=◌, ◌>>◌, pure, gets, unwrap, on_ext, modify_ext, touch, trace, pop,
  memory_expansion_cost,
}
use solenoid.Instr.Frame.{Frame, this_address, expand, read_memory, pop_usize}
use solenoid.Frames.Warm.{warm_up}
use solenoid.Frames.Report.{report_cost}
use solenoid.Frames.Inner.{Runner, run_inner, join_trace}
use solenoid.Frames.Create.Deploy.{Creation, deploy}

abbrev is_create2 : CallType → Bool
is_create2 CallType.create2 = true
is_create2 _ = false

-- What CREATE pops; the salt is zero for it.
pub record CreateArgs : Type 0 where
  pub value : Word
  pub offset : ℕ
  pub size : ℕ
  pub salt : Word

-- 2 for each word of the code, and 6 more for CREATE2.
unfoldable pub init_code_cost : CallType → List ℕ → ℤ
init_code_cost t code =
    let words = as_i64 (div_ceil (length code) 32) in
    add_i64 (mul_i64 (pos 2) words) (if is_create2 t then mul_i64 (pos 6) words else pos 0)

module _ ⦃prim : Primitives⦄ where
  unfoldable pub create_args : CallType → Action CreateArgs
  create_args t = do
    value ← pop
    offset ← pop_usize
    size ← pop_usize
    salt ← (if is_create2 t then pop else pure zero_word)
    pure (record { value = value; offset = offset; size = size; salt = salt })

  -- The nonce of the creator goes up, and is returned as it was.
  unfoldable pub next_nonce : ℕ → Address → Action Word
  next_nonce depth this = do
    n ← on_ext (nonce this)
    up ← unwrap (prim.u256_add n one_word)
    on_ext (change_account this (λ account. record account { nonce = up }))
    small ← unwrap (as_u64 n)
    touch (AccountTouch.set_nonce this small (add_usize small 1))
    trace (
        event (EventData.account (AccountEvent.set_nonce this small (add_usize small 1))) depth
          false)
    pure n

  unfoldable pub created_address : CallType → Address → Word → Word → List ℕ → Address
  created_address t this n salt code =
      if is_create2 t then Address.create2 this salt code else Address.create this n

-- The address is noted as created and becomes warm; its account is there from now on.
unfoldable pub open_account : Address → Action Done
open_account created = do
  modify_ext (λ ext. record ext { created_accounts = ext.created_accounts ++ created ∷ [] })
  warm_up created
  modify_ext (ensure_account created)

-- Nothing is forwarded, by a panic, when nothing remains.
unfoldable pub create_gas : ℤ → ℤ → Action ℤ
create_gas base left s =
    let rest = sub_i64 left base in
    if leb_ℤ rest (pos 0) then (panic, s) else (ok (sub_i64 rest (div_i64 rest 64)), s)

module _ ⦃prim : Primitives⦄ where
  unfoldable pub create : Runner → Frame → Action Done
  create run f = do
    let this = this_address f
    args ← create_args f.ctx.call_type
    let end = add_usize args.offset args.size
    (if ltb 0 args.size then expand end else pure tt)
    expansion ← memory_expansion_cost
    bytes ← read_memory args.offset end
    n ← next_nonce f.ctx.depth this
    let created = created_address f.ctx.call_type this n args.salt bytes
    open_account created
    let base = add_i64 (add_i64 expansion (pos 32000)) (init_code_cost f.ctx.call_type bytes)
    left ← gets (λ s. Gas.remaining s.evm.gas)
    gas ← create_gas base left
    let inner_call : Call = record {
      input = [];
      value = args.value;
      sender = this;
      to = 0;
      gas = I64.as_u64 gas;
    }
    inner ← run_inner run (decode bytes) inner_call (record f.ctx { created = created }) gas
    report_cost f (add_i64 base gas) (pos 0)
    join_trace inner
    deploy f
        (record { created = created; value = args.value; base = base; gas = gas; inner = inner })
