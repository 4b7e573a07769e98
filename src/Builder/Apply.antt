-- ===== src/Builder/Apply.antt =====
-- `Runner::apply` of src/solenoid.rs: what the transaction costs before it runs, the call of a
-- contract, and the creation of one.
pub mod Creation
pub mod Charged
pub mod Placed
use solenoid.Base.{ℕ, Bool, true, false, not, List, [], length, leb, ◌==◌, ◌&&◌, if◌then◌else◌}
use solenoid.Base.Int.{ℤ, pos}
use solenoid.Base.I64.{as_i64, add_i64, sub_i64, mul_i64, div_ceil}
use solenoid.Primitives.{Primitives}
use solenoid.Outcome.{Outcome, ok, err, panic, unfinished, Done}
use solenoid.Word.{Word, is_zero, one_word, as_i64 as word_as_i64}
use solenoid.Gas
use solenoid.Types.{Address, Call, Context, AccountTouch, is_zero_address}
use solenoid.Event.{Tracer}
use solenoid.Address
use solenoid.Decoder.{decode}
use solenoid.Ext
use solenoid.Ext.{
  Ext, code, balance, nonce, pull, warm_address, access_list_cost, apply_access_list,
}
use solenoid.Ext.Slot.{change_account}
use solenoid.Evm
use solenoid.Evm.{Evm}
use solenoid.Machine.{
  Machine, Action, ◌>>=◌, ◌>>◌, pure, gets, unwrap, on_ext, modify_evm, modify_ext, touch,
}
use solenoid.Frames.Inner.{Runner as FrameRunner}
use solenoid.Frames.Call.Arguments.{is_delegation, delegation_target}
use solenoid.Frames.Create.{open_account}
use solenoid.Transaction.{execute}
use solenoid.Transaction.Fees.{call_cost, data_cost, word_of_i64}
use solenoid.Builder.{Runner}
use solenoid.Builder.Apply.Creation.{GasResult, raise_nonce, create_contract}

-- The costs beside the gas of the first frame; the code of a creation is not part of the data.
unfoldable pub upfront_gas_reduction : Call → ℤ → ℤ
upfront_gas_reduction call list_cost =
    let input_cost = data_cost call.input in
    add_i64
      (if is_zero_address call.to
        then add_i64 (add_i64 (add_i64 input_cost (pos 32000)) call_cost)
            (mul_i64 (pos 2) (as_i64 (div_ceil (length call.input) 32)))
        else add_i64 call_cost input_cost)
      list_cost

module _ ⦃prim : Primitives⦄ where
  -- The code that runs, that of the target or of what it delegates to.
  unfoldable pub first_code : Runner → Action (List ℕ)
  first_code r = if is_zero_address r.call.to then pure r.code else (do
    (own, hash) ← on_ext (code r.call.to)
    touch (AccountTouch.get_code r.call.to hash own)
    pure own)

  unfoldable pub delegated_code : List ℕ → Action (List ℕ)
  delegated_code own =
      if is_delegation own
      then (do
        let target = delegation_target own
        (found, hash) ← on_ext (code target)
        touch (AccountTouch.get_code target hash found)
        pure found)
      else pure own

  -- Also a call opens the account that a creation with its nonce would have.
  unfoldable pub prepare : Call → Action (ℤ × Address)
  unfolding upfront_gas_reduction
  prepare call = do
    list_cost ← gets (λ s. access_list_cost s.ext.tx_ctx)
    let upfront = upfront_gas_reduction call list_cost
    modify_ext apply_access_list
    limit ← unwrap (word_as_i64 call.gas)
    modify_evm (λ evm. record evm { gas = Gas.new (sub_i64 limit upfront) })
    on_ext (pull call.sender)
    n ← on_ext (nonce call.sender)
    let created = Address.create call.sender n
    open_account created
    pure (upfront, created)

  -- A call: the nonce, which a reverted transaction took back, goes up again.
  unfoldable pub call_contract : FrameRunner → List ℕ → Call → ℤ → Action (List ℕ × GasResult)
  unfolding execute
  call_contract run bytes call upfront = do
    ret ← execute run (decode bytes) call
    reverted ← gets (λ s. s.evm.reverted)
    (if reverted then raise_nonce call.sender else pure tt)
    final ← gets (λ s. Gas.finalized s.evm.gas upfront s.evm.reverted)
    max ← unwrap (word_as_i64 call.gas)
    gas ← unwrap (word_of_i64 final)
    price ← gets (λ s. s.ext.tx_ctx.gas_price)
    fee ← unwrap (prim.u256_mul gas price)
    pure (ret, record { gas_max = max; gas_use = final; gas_fee = fee })

  unfoldable pub apply : FrameRunner → Runner → Action (List ℕ × GasResult)
  unfolding first_code delegated_code prepare call_contract create_contract
  apply run r = do
    (if is_zero_address r.header.miner
        then pure tt
        else modify_ext (λ ext. (warm_address r.header.miner ext).1))
    own ← first_code r
    bytes ← delegated_code own
    (upfront, created) ← prepare r.call
    (if is_zero_address r.call.to
        then create_contract run bytes r.call upfront created
        else call_contract run bytes r.call upfront)

-- The frame that `apply` starts with.
abbrev pub start : Runner → Ext → Machine
start r ext = record {
  exec = record { header = r.header; tracer = []; ret = [] };
  evm = Evm.new (Gas.new (pos 0));
  ext = ext;
}
