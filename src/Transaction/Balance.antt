-- ===== src/Transaction/Balance.antt =====
-- The fees of a transaction of src/executor.rs, from the payment in advance to the coinbase.
use solenoid.Base.{
  ℕ, ◌+◌, ◌-◌, ◌*◌, ◌≤◌, ◌<◌, ◌≡◌, ◌≢◌, refl, ap, sym, ◌∙◌, false, not, ◌&&◌, ltb, Option, none,
  some, arith, if◌then◌else◌,
}
use solenoid.Base.Int.{pos}
use solenoid.Primitives.{Primitives, two256}
use solenoid.Outcome.{Outcome, ok, Done}
use solenoid.Word.{Word}
use solenoid.Types.{Address, Call, Header, is_zero_address}
use solenoid.Event.{EventData, event}
use solenoid.Ext.{Account, Ext, TxContext}
use solenoid.Machine.{Machine, Action, ◌>>=◌, ◌>>◌, pure, unwrap, trace}
use solenoid.Machine.Run.{run_ok, unwrap_run}
use solenoid.Frames.Transfer.Moves.{value_of}
use solenoid.Transaction.Fees.{
  gas_final, word_of_i64, effective_gas_price, refund_sender, pay_coinbase, blob_fee, settle_fees,
}
use solenoid.Transaction.Settled.{
  Pays, price_of, effective_gas_price_run, refund_sender-Pays, pay_coinbase-Pays,
}

-- The fees are settled: the sender has this balance, the coinbase that one, and no other account has
-- changed.
pub record IsSettled (sender miner : Address) (left share : Word) (s : Machine)
    (after : Outcome Done × Machine) : Type 0 where
  pub succeeds : after.0 ≡ ok tt
  pub refunded : value_of sender after.1.ext ≡ some left
  pub rewarded : value_of miner after.1.ext ≡ some share
  pub others : (c : Address) → c ≢ sender → c ≢ miner → after.1.ext.state c ≡ s.ext.state c

same_value :
    (a : Address) (ext ext' : Ext) → ext.state a ≡ ext'.state a → value_of a ext ≡ value_of a ext'
same_value a ext ext' e =
    ap
      (λ (o : Option Account). elim o as (λ _. Option Word) [
        | none ↦ none
        | some account ↦ some account.value
      ])
      e

-- `settle_fees` behind the payment of the sender, and of the coinbase.
module _ ⦃prim : Primitives⦄ where
  abbrev report_fee : Word → Word → TxContext → Header → Action Done
  report_fee gas fee tx header =
      (if ltb 0 tx.blob_gas_used && not (is_zero_address header.miner)
        then blob_fee header tx
        else pure tt)
      >> trace (event (EventData.fee gas tx.gas_price fee) 1 false)

  abbrev reward : Word → TxContext → Header → Action Done
  reward gas tx header =
      if is_zero_address header.miner
      then pure tt
      else pay_coinbase header.miner gas header.base_fee tx

  report_fee_run :
      (gas fee : Word) (tx : TxContext) (header : Header) (s : Machine)
      → tx.blob_gas_used ≡ 0
      → report_fee gas fee tx header s
        ≡ (ok tt, (trace (event (EventData.fee gas tx.gas_price fee) 1 false) s).1)
  unfolding trace
  report_fee_run gas fee tx header s none_used = rw (none_used) refl

  reward-Pays :
      (gas : Word) (tx : TxContext) (header : Header) (to : Account) (s : Machine)
      → is_zero_address header.miner ≡ false
      → s.ext.state header.miner ≡ some to
      → header.base_fee + tx.gas_max_priority_fee < two256
      → to.value + gas * (price_of tx header.base_fee - header.base_fee) < two256
      → Pays header.miner
          (to.value + gas * (price_of tx header.base_fee - header.base_fee))
          s
          (reward gas tx header s)
  reward-Pays gas tx header to s there e sums fits =
      rw (there) (pay_coinbase-Pays header.miner gas header.base_fee tx to s e sums fits)

  -- The parts of `settle_fees` behind the fee.
  abbrev closing : Call → Word → Word → Word → TxContext → Header → Word → Action Done
  closing call funds gas fee tx header refund =
      refund_sender call.sender refund funds
      >> (reward gas tx header >> report_fee gas fee tx header)

  closing-IsSettled :
      (call : Call) (funds gas fee refund : Word) (tx : TxContext) (header : Header)
      (from to : Account) (s : Machine)
      → s.ext.state call.sender ≡ some from
      → s.ext.state header.miner ≡ some to
      → header.miner ≢ call.sender
      → is_zero_address header.miner ≡ false
      → tx.blob_gas_used ≡ 0
      → header.base_fee + tx.gas_max_priority_fee < two256
      → from.value + refund < two256
      → to.value + gas * (price_of tx header.base_fee - header.base_fee) < two256
      → IsSettled call.sender header.miner
          (from.value + refund)
          (to.value + gas * (price_of tx header.base_fee - header.base_fee))
          s
          (closing call funds gas fee tx header refund s)
  unfolding trace
  closing-IsSettled call funds gas fee refund tx header from to s hf hm ne there none_used sums fits
        fits' =
      let r1 = refund_sender call.sender refund funds s in
      let p1 = refund_sender-Pays call.sender refund funds from s hf fits in
      let hm' : r1.1.ext.state header.miner ≡ some to = p1.others header.miner ne ∙ hm in
      let r2 = reward gas tx header r1.1 in
      let p2 = reward-Pays gas tx header to r1.1 there hm' sums fits' in
      let kept = p2.others call.sender (λ e. ne (sym e)) in
      rw
        (run_ok (refund_sender call.sender refund funds)
            (λ _. reward gas tx header >> report_fee gas fee tx header) s r1.1 tt
            (ap (λ (o : Outcome Done). (o, r1.1)) p1.succeeds)
          ∙ run_ok (reward gas tx header) (λ _. report_fee gas fee tx header) r1.1 r2.1 tt
              (ap (λ (o : Outcome Done). (o, r2.1)) p2.succeeds)
          ∙ report_fee_run gas fee tx header r2.1 none_used)
        (record {
          succeeds = refl;
          refunded = same_value call.sender r2.1.ext r1.1.ext kept ∙ p1.paid;
          rewarded = p2.paid;
          others = λ c p q. p2.others c q ∙ p1.others c p;
        })

  abbrev priced : Call → Word → Word → Word → TxContext → Header → Word → Action Done
  priced call payment funds price tx header gas = unwrap (prim.u256_mul gas price) >>= λ fee.
      unwrap (prim.u256_sub payment fee) >>= closing call funds gas fee tx header

  -- The end of a transaction without blobs takes the fee, the gas used at the effective price, out
  -- of the payment in advance and gives the rest back to the sender; the coinbase gets what the
  -- price exceeds the base fee by for each unit of gas; no other account changes. The accounts of
  -- the sender and the coinbase are cached and differ, the coinbase is not the zero address, the
  -- payment covers the fee, and no sum exceeds 256 bits.
  pub settle_fees-IsSettled :
      (call : Call) (ret_len gas payment funds : ℕ) (from to : Account) (s : Machine)
      → let tx = s.ext.tx_ctx in
        let header = s.exec.header in
        let price = price_of tx header.base_fee in
        gas_final call ret_len s ≡ pos gas
        → s.ext.state call.sender ≡ some from
        → s.ext.state header.miner ≡ some to
        → header.miner ≢ call.sender
        → is_zero_address header.miner ≡ false
        → tx.blob_gas_used ≡ 0
        → header.base_fee + tx.gas_max_priority_fee < two256
        → gas * price ≤ payment
        → payment < two256
        → from.value + (payment - gas * price) < two256
        → to.value + gas * (price - header.base_fee) < two256
        → IsSettled call.sender header.miner
            (from.value + (payment - gas * price))
            (to.value + gas * (price - header.base_fee))
            s
            (settle_fees call ret_len payment funds s)
  unfolding settle_fees
  settle_fees-IsSettled call ret_len gas payment funds from to s final hf hm ne there none_used sums
        covered bounded fits fits' =
      let tx = s.ext.tx_ctx in
      let header = s.exec.header in
      let price = price_of tx header.base_fee in
      let fee = gas * price in
      rw
        (run_ok (effective_gas_price tx header.base_fee)
            (λ price'.
              unwrap (word_of_i64 (gas_final call ret_len s))
              >>= priced call payment funds price' tx header)
            s s price (effective_gas_price_run tx header.base_fee s sums)
          ∙ run_ok (unwrap (word_of_i64 (gas_final call ret_len s)))
              (priced call payment funds price tx header) s s gas
              (unwrap_run _ s gas (ap word_of_i64 final))
          ∙ run_ok (unwrap (prim.u256_mul gas price))
              (λ fee'.
                unwrap (prim.u256_sub payment fee') >>= closing call funds gas fee' tx header)
              s s fee (unwrap_run _ s _ (prim.u256_mul_law gas price ∙ ground arith))
          ∙ run_ok (unwrap (prim.u256_sub payment fee)) (closing call funds gas fee tx header) s s
              (payment - fee) (unwrap_run _ s _ (prim.u256_sub_law payment fee ∙ ground arith)))
        (closing-IsSettled call funds gas fee (payment - fee) tx header from to s hf hm ne there
          none_used sums fits fits')
