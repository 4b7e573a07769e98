-- ===== src/Transaction/Settled.antt =====
-- What the fees of a transaction of src/executor.rs do to the balances.
use solenoid.Base.{
  ◌+◌, ◌-◌, ◌*◌, ◌<◌, ◌≡◌, ◌≢◌, refl, ap, subst, ◌∙◌, Bool, true, false, min, some, Bool-cases, inl,
  inr, arith, if◌then◌else◌,
}
use solenoid.Primitives.{Primitives, two256}
use solenoid.Outcome.{Outcome, ok, Done}
use solenoid.Word.{Word, is_zero}
use solenoid.Types.{Address, AccountTouch}
use solenoid.Event.{EventData, AccountEvent, event}
use solenoid.Ext.{Account, Ext, TxContext, balance}
use solenoid.Ext.Slot.{change_account}
use solenoid.Machine.{Machine, Action, ◌>>=◌, ◌>>◌, pure, unwrap, on_ext, touch, trace, modify_evm}
use solenoid.Machine.Run.{run_ok, unwrap_run, balance_run, with_account, change_run}
use solenoid.Frames.Transfer.Moves.{value_of}
use solenoid.Transaction.Fees.{effective_gas_price, coinbase_gas_price, refund_sender, pay_coinbase}

-- An action that succeeds, leaves the account with a balance, and every other account as it was.
pub record Pays (a : Address) (v : Word) (s : Machine) (after : Outcome Done × Machine)
    : Type 0 where
  pub succeeds : after.0 ≡ ok tt
  pub paid : value_of a after.1.ext ≡ some v
  pub others : (c : Address) → c ≢ a → after.1.ext.state c ≡ s.ext.state c

-- The price of a unit of gas: the gas price of a legacy transaction, or the base fee and the
-- priority fee up to the maximum.
abbrev pub price_of : TxContext → Word → Word
price_of tx base_fee =
    if is_zero tx.gas_max_priority_fee
    then tx.gas_price
    else min tx.gas_max_fee (base_fee + tx.gas_max_priority_fee)

value_of_cached :
    (a : Address) (ext : Ext) (account : Account)
    → ext.state a ≡ some account
    → value_of a ext ≡ some account.value
value_of_cached a ext account e = rw (value_of, e) refl

insert_other :
    (a c : Address) (account : Account) (s : Machine)
    → c ≢ a
    → (with_account a account s).ext.state c ≡ s.ext.state c
insert_other a c account s p = ground arith

abbrev new_balance : Word → Account → Account
new_balance sum account = record account { value = sum }

module _ ⦃prim : Primitives⦄ where
  pub effective_gas_price_run :
      (tx : TxContext) (base_fee : Word) (s : Machine)
      → base_fee + tx.gas_max_priority_fee < two256
      → effective_gas_price tx base_fee s ≡ (ok (price_of tx base_fee), s)
  unfolding effective_gas_price
  effective_gas_price_run tx base_fee s fits = elim (Bool-cases (is_zero tx.gas_max_priority_fee)) [
    | inl h ↦ rw (effective_gas_price, h) refl
    | inr h ↦
        rw (effective_gas_price, h)
          (run_ok (unwrap (prim.u256_add base_fee tx.gas_max_priority_fee))
            (λ sum. pure (min tx.gas_max_fee sum)) s s (base_fee + tx.gas_max_priority_fee)
            (unwrap_run _ s _ (prim.u256_add_law base_fee tx.gas_max_priority_fee ∙ ground arith)))
  ]

  -- The parts of `refund_sender`.
  abbrev write_sum : Address → Word → Action Done
  write_sum a sum = on_ext (change_account a (new_balance sum))

  abbrev add_funds : Address → Word → Action Done
  add_funds a amount =
      on_ext (balance a) >>= λ held. unwrap (prim.u256_add held amount) >>= write_sum a

  add_funds_run :
      (a : Address) (amount : Word) (account : Account) (s : Machine)
      → s.ext.state a ≡ some account
      → account.value + amount < two256
      → add_funds a amount s
        ≡ (ok tt, with_account a (new_balance (account.value + amount) account) s)
  add_funds_run a amount account s e fits =
      run_ok (on_ext (balance a)) (λ held. unwrap (prim.u256_add held amount) >>= write_sum a) s s
        account.value (balance_run a s account e)
      ∙ run_ok (unwrap (prim.u256_add account.value amount)) (write_sum a) s s
          (account.value + amount)
          (unwrap_run _ s _ (prim.u256_add_law account.value amount ∙ ground arith))
      ∙ change_run a (new_balance (account.value + amount)) s account e

  abbrev note_fee : Address → Word → Action Done
  note_fee sender funds =
      on_ext (balance sender) >>= λ after. touch (AccountTouch.fee_pay sender funds after)

  abbrev fee_noted : Address → Word → Word → Machine → Machine
  fee_noted sender funds after s = (touch (AccountTouch.fee_pay sender funds after) s).1

  note_fee_run :
      (sender : Address) (funds : Word) (account : Account) (s : Machine)
      → s.ext.state sender ≡ some account
      → note_fee sender funds s ≡ (ok tt, fee_noted sender funds account.value s)
  unfolding touch modify_evm
  note_fee_run sender funds account s e =
      run_ok (on_ext (balance sender)) (λ after. touch (AccountTouch.fee_pay sender funds after)) s
        s account.value (balance_run sender s account e)

  note_fee-Pays :
      (sender : Address) (funds : Word) (account : Account) (s : Machine)
      → s.ext.state sender ≡ some account
      → Pays sender account.value s (note_fee sender funds s)
  unfolding touch modify_evm
  note_fee-Pays sender funds account s e = rw (note_fee_run sender funds account s e) (record {
    succeeds = refl;
    paid = value_of_cached sender s.ext account e;
    others = λ c p. refl;
  })

  refund_if-Pays :
      (b : Bool) (sender : Address) (refund funds : Word) (account : Account) (s : Machine)
      → is_zero refund ≡ b
      → s.ext.state sender ≡ some account
      → account.value + refund < two256
      → Pays sender
          (account.value + refund)
          s
          (((if b then pure tt else add_funds sender refund) >> note_fee sender funds) s)
  refund_if-Pays true sender refund funds account s z e fits =
      subst (λ (v : Word). Pays sender v s (note_fee sender funds s)) (ground arith)
        (note_fee-Pays sender funds account s e)
  refund_if-Pays false sender refund funds account s z e fits =
      let richer = new_balance (account.value + refund) account in
      let s' = with_account sender richer s in
      let noted = note_fee-Pays sender funds richer s' (ground arith) in
      rw
        (run_ok (add_funds sender refund) (λ _. note_fee sender funds) s s' tt
          (add_funds_run sender refund account s e fits))
        (record {
          succeeds = noted.succeeds;
          paid = noted.paid;
          others = λ c p. noted.others c p ∙ insert_other sender c richer s p;
        })

  -- The sender gets back the part of the payment that the fee leaves.
  pub refund_sender-Pays :
      (sender : Address) (refund funds : Word) (account : Account) (s : Machine)
      → s.ext.state sender ≡ some account
      → account.value + refund < two256
      → Pays sender (account.value + refund) s (refund_sender sender refund funds s)
  unfolding refund_sender
  refund_sender-Pays sender refund funds account s e fits =
      refund_if-Pays (is_zero refund) sender refund funds account s refl e fits

  -- The parts of `pay_coinbase`.
  abbrev report_fee : Address → Word → Word → Action Done
  report_fee miner held sum =
      trace (event (EventData.account (AccountEvent.set_value miner held sum)) 1 false)
      >> touch (AccountTouch.fee_pay miner held sum)

  abbrev reported : Address → Word → Word → Action Done
  reported miner held sum = write_sum miner sum >> report_fee miner held sum

  abbrev credit_fee : Address → Word → Word → Action Done
  credit_fee miner held fee = unwrap (prim.u256_add held fee) >>= reported miner held

  abbrev pay_fee : Bool → Address → Word → Word → Action Done
  pay_fee b miner held fee =
      if b then touch (AccountTouch.fee_pay miner held held) else credit_fee miner held fee

  pay_fee-Pays :
      (b : Bool) (miner : Address) (fee : Word) (account : Account) (s : Machine)
      → is_zero fee ≡ b
      → s.ext.state miner ≡ some account
      → account.value + fee < two256
      → Pays miner (account.value + fee) s (pay_fee b miner account.value fee s)
  unfolding touch modify_evm trace
  pay_fee-Pays true miner fee account s z e fits = record {
    succeeds = refl;
    paid = value_of_cached miner s.ext account e ∙ ap some (ground arith);
    others = λ c p. refl;
  }
  pay_fee-Pays false miner fee account s z e fits =
      let richer = new_balance (account.value + fee) account in
      rw
        (run_ok (unwrap (prim.u256_add account.value fee)) (reported miner account.value) s s
            (account.value + fee)
            (unwrap_run _ s _ (prim.u256_add_law account.value fee ∙ ground arith))
          ∙ run_ok (write_sum miner (account.value + fee))
              (λ _. report_fee miner account.value (account.value + fee)) s
              (with_account miner richer s) tt
              (change_run miner (new_balance (account.value + fee)) s account e))
        (record {
          succeeds = refl;
          paid = ground arith;
          others = λ c p. insert_other miner c richer s p;
        })

  coinbase_gas_price_run :
      (tx : TxContext) (base_fee : Word) (s : Machine)
      → base_fee + tx.gas_max_priority_fee < two256
      → coinbase_gas_price tx base_fee s ≡ (ok (price_of tx base_fee - base_fee), s)
  unfolding coinbase_gas_price
  coinbase_gas_price_run tx base_fee s sums =
      run_ok (effective_gas_price tx base_fee)
        (λ price. pure (prim.u256_saturating_sub price base_fee)) s s (price_of tx base_fee)
        (effective_gas_price_run tx base_fee s sums)
      ∙ ap (λ (v : Word). (ok v, s)) (prim.u256_saturating_sub_law (price_of tx base_fee) base_fee)

  abbrev with_fee : Address → Word → Action Done
  with_fee miner fee = on_ext (balance miner) >>= λ held. pay_fee (is_zero fee) miner held fee

  -- The coinbase gets its share of the price for each unit of gas.
  pub pay_coinbase-Pays :
      (miner : Address) (gas base_fee : Word) (tx : TxContext) (account : Account) (s : Machine)
      → s.ext.state miner ≡ some account
      → base_fee + tx.gas_max_priority_fee < two256
      → account.value + gas * (price_of tx base_fee - base_fee) < two256
      → Pays miner
          (account.value + gas * (price_of tx base_fee - base_fee))
          s
          (pay_coinbase miner gas base_fee tx s)
  unfolding pay_coinbase
  pay_coinbase-Pays miner gas base_fee tx account s e sums fits =
      let share = price_of tx base_fee - base_fee in
      rw
        (run_ok (coinbase_gas_price tx base_fee)
            (λ price. unwrap (prim.u256_mul gas price) >>= with_fee miner) s s share
            (coinbase_gas_price_run tx base_fee s sums)
          ∙ run_ok (unwrap (prim.u256_mul gas share)) (with_fee miner) s s (gas * share)
              (unwrap_run _ s _ (prim.u256_mul_law gas share ∙ ground arith))
          ∙ run_ok (on_ext (balance miner))
              (λ held. pay_fee (is_zero (gas * share)) miner held (gas * share)) s s account.value
              (balance_run miner s account e))
        (pay_fee-Pays (is_zero (gas * share)) miner (gas * share) account s refl e fits)
