-- ===== src/Builder/Apply/Placed.antt =====
-- The end of a creation that succeeds, in `Runner::apply` of src/solenoid.rs.
use solenoid.Base.{ℕ, ◌+◌, ◌^◌, ◌<◌, ◌≡◌, ◌≢◌, refl, ◌∙◌, some, List, arith}
use solenoid.Base.I64.{add_usize}
use solenoid.Primitives.{Primitives}
use solenoid.Outcome.{Outcome, ok, Done}
use solenoid.Word.{zero_word, one_word, as_u64, from_bytes}
use solenoid.Types.{Address, AccountTouch}
use solenoid.Ext.{Account, pull}
use solenoid.Ext.Slot.{change_account}
use solenoid.Machine.{Machine, Action, ◌>>=◌, ◌>>◌, unwrap, on_ext, touch, modify_evm}
use solenoid.Machine.Run.{run_ok, unwrap_run, with_account, change_run}
use solenoid.Builder.Apply.Creation.{held_account, raise_nonce, note_nonce, place_contract}

-- The machine after a creation: the sender has one more transaction, the new account has its code,
-- and the balances and the other accounts are as they were.
pub record IsPlaced (sender created : Address) (from : Account) (to : Account) (s : Machine)
    (after : Outcome Done × Machine) : Type 0 where
  pub succeeds : after.0 ≡ ok tt
  pub raised : after.1.ext.state sender ≡ some (record from { nonce = from.nonce + 1 })
  pub placed : after.1.ext.state created ≡ some to
  pub others : (c : Address) → c ≢ sender → c ≢ created → after.1.ext.state c ≡ s.ext.state c

abbrev raise_one : Account → Account
raise_one account = record account { nonce = account.nonce + 1 }

abbrev noted : Address → ℕ → Machine → Machine
noted a n s = (touch (AccountTouch.set_nonce a n (add_usize n 1)) s).1

module _ ⦃prim : Primitives⦄ where
  pull_run :
      (a : Address) (s : Machine) (account : Account)
      → s.ext.state a ≡ some account
      → on_ext (pull a) s ≡ (ok account, s)
  unfolding on_ext pull
  pull_run a s account e = rw (on_ext, pull, e) refl

  held_run :
      (a : Address) (s : Machine) (account : Account)
      → s.ext.state a ≡ some account
      → on_ext (held_account a) s ≡ (ok account, s)
  unfolding on_ext held_account
  held_run a s account e = rw (on_ext, held_account, e) refl

  -- With the account in the cache and room for the nonce.
  raise_nonce_run :
      (a : Address) (s : Machine) (account : Account)
      → s.ext.state a ≡ some account
      → account.nonce < 2 ^ 64
      → raise_nonce a s ≡ (ok tt, with_account a (raise_one account) s)
  unfolding raise_nonce
  raise_nonce_run a s account e small =
      run_ok (on_ext (held_account a))
        (λ found. unwrap (prim.u256_add found.nonce one_word) >>= λ up.
          on_ext (change_account a (λ old. record old { nonce = up })))
        s s account (held_run a s account e)
      ∙ run_ok (unwrap (prim.u256_add account.nonce one_word))
          (λ up. on_ext (change_account a (λ old. record old { nonce = up }))) s s
          (account.nonce + 1)
          (unwrap_run _ s _ (prim.u256_add_law account.nonce one_word ∙ ground arith))
      ∙ change_run a (λ old. record old { nonce = account.nonce + 1 }) s account e

  note_nonce_run :
      (a : Address) (s : Machine) (account : Account)
      → s.ext.state a ≡ some account
      → account.nonce < 2 ^ 64
      → note_nonce a s ≡ (ok tt, noted a account.nonce (with_account a (raise_one account) s))
  unfolding note_nonce touch modify_evm
  note_nonce_run a s account e small =
      let s' = with_account a (raise_one account) s in
      let note : ℕ → Action Done = λ n. touch (AccountTouch.set_nonce a n (add_usize n 1)) in
      run_ok (on_ext (held_account a))
        (λ found. raise_nonce a >> (unwrap (as_u64 found.nonce) >>= note)) s s account
        (held_run a s account e)
      ∙ run_ok (raise_nonce a) (λ _. unwrap (as_u64 account.nonce) >>= note) s s' tt
          (raise_nonce_run a s account e small)
      ∙ run_ok (unwrap (as_u64 account.nonce)) note s' s' account.nonce
          (unwrap_run _ s' _ (prim.u256_as_u64_fits account.nonce small))

  -- The new account: the code with its hash, and the nonce 1.
  abbrev pub contract_of : List ℕ → Account → Account
  contract_of ret account = record account {
    code = (ret, from_bytes (prim.keccak ret));
    nonce = one_word;
  }

  abbrev set_code : List ℕ → Account → Account
  set_code ret account = record account { code = (ret, from_bytes (prim.keccak ret)) }

  abbrev set_one : Account → Account
  set_one account = record account { nonce = one_word }

  abbrev report_created : Address → List ℕ → Action Done
  report_created created ret =
      touch (AccountTouch.create created zero_word one_word ret (from_bytes (prim.keccak ret)))

  abbrev write_contract : Address → List ℕ → Action Done
  write_contract created ret =
      on_ext (change_account created (set_code ret))
      >> (on_ext (change_account created set_one) >> report_created created ret)

  write_contract_run :
      (created : Address) (ret : List ℕ) (s : Machine) (account : Account)
      → s.ext.state created ≡ some account
      → write_contract created ret s
        ≡ report_created created ret (
            with_account created
              (contract_of ret account)
              (with_account created (set_code ret account) s))
  write_contract_run created ret s account e =
      let s' = with_account created (set_code ret account) s in
      let rest : Action Done =
        on_ext (change_account created set_one) >> report_created created ret in
      run_ok (on_ext (change_account created (set_code ret))) (λ _. rest) s s' tt
        (change_run created (set_code ret) s account e)
      ∙ run_ok (on_ext (change_account created set_one)) (λ _. report_created created ret) s'
          (with_account created (contract_of ret account) s') tt
          (change_run created set_one s' (set_code ret account) (ground arith))

  -- The step of a successful creation by `Runner::apply` that places the contract, before the fees:
  -- the nonce of the sender goes up by one, the new account gets the code with its hash and the
  -- nonce 1, and this step leaves the balances and the other accounts. Both accounts are cached and
  -- differ, and the nonce fits 64 bits.
  pub place_contract-IsPlaced :
      (sender created : Address) (ret : List ℕ) (s : Machine) (from to : Account)
      → s.ext.state sender ≡ some from
      → s.ext.state created ≡ some to
      → created ≢ sender
      → from.nonce < 2 ^ 64
      → IsPlaced sender created from (contract_of ret to) s (place_contract sender created ret s)
  unfolding place_contract touch modify_evm
  place_contract-IsPlaced sender created ret s from to hs hc apart small =
      let s' = noted sender from.nonce (with_account sender (raise_one from) s) in
      let there : s'.ext.state created ≡ some to = ground arith in
      let rest : Action Done = note_nonce sender >> write_contract created ret in
      rw
        (run_ok (on_ext (pull created)) (λ _. on_ext (pull sender) >> rest) s s to
            (pull_run created s to hc)
          ∙ run_ok (on_ext (pull sender)) (λ _. rest) s s from (pull_run sender s from hs)
          ∙ run_ok (note_nonce sender) (λ _. write_contract created ret) s s' tt
              (note_nonce_run sender s from hs small)
          ∙ write_contract_run created ret s' to there)
        (record {
          succeeds = refl;
          raised = ground arith;
          placed = ground arith;
          others = λ c p q. ground arith;
        })
