-- ===== src/Frames/Transfer/Moves.antt =====
-- What the transfer of value by `call` of src/executor.rs does to the balances.
use solenoid.Base.{
  ℕ, ◌+◌, ◌-◌, ◌≤◌, ◌<◌, ◌≡◌, ◌≢◌, refl, ap, ◌∙◌, Bool, true, false, not, ◌==◌, ◌&&◌, leb, Option,
  none, some, Bool-cases, inl, inr, arith, if◌then◌else◌,
}
use solenoid.Primitives.{Primitives, two256}
use solenoid.Outcome.{Outcome, ok, Done}
use solenoid.Word.{Word}
use solenoid.Maps.{insert}
use solenoid.Types.{Address, CallType, AccountTouch}
use solenoid.Event.{EventData, AccountEvent, event, push_event}
use solenoid.Ext.{Account, Ext, balance}
use solenoid.Ext.Slot.{change_account}
use solenoid.Evm
use solenoid.Machine.{Machine, Action, ◌>>=◌, ◌>>◌, pure, unwrap, on_ext, touch, trace, modify_evm}
use solenoid.Machine.Run.{run_ok, unwrap_run, balance_run, with_account, change_run}
use solenoid.Frames.Transfer.{moves_value, set_balance, move_value, call_transfer}

abbrev set_value : Word → Account → Account
set_value new account = record account { value = new }

-- The machine behind `set_balance` of an account that is cached.
abbrev posted : ℕ → Address → Word → Word → Account → Machine → Machine
posted depth a old new account s = record s {
  exec = record s.exec {
    tracer =
        push_event (event (EventData.account (AccountEvent.set_value a old new)) depth false)
          s.exec.tracer;
  };
  evm = Evm.touch (AccountTouch.set_value a old new) s.evm;
  ext = record s.ext { state = insert a (set_value new account) s.ext.state };
}

-- `set_balance` behind the write.
abbrev report : ℕ → Address → Word → Word → Action Done
report depth a old new =
    touch (AccountTouch.set_value a old new)
    >> trace (event (EventData.account (AccountEvent.set_value a old new)) depth false)

set_balance_run :
    (depth : ℕ) (a : Address) (old new : Word) (account : Account) (s : Machine)
    → s.ext.state a ≡ some account
    → set_balance depth a old new s ≡ (ok tt, posted depth a old new account s)
unfolding set_balance touch modify_evm trace
set_balance_run depth a old new account s e =
    run_ok (on_ext (change_account a (set_value new))) (λ _. report depth a old new) s
      (with_account a (set_value new account) s) tt (change_run a (set_value new) s account e)

-- The balance of an account that the cache holds.
abbrev pub value_of : Address → Ext → Option Word
value_of a ext = elim (ext.state a) [ none ↦ none | some account ↦ some account.value ]

module _ ⦃prim : Primitives⦄ where
  -- The parts of `move_value` behind the difference and behind the first write.
  abbrev credit : ℕ → Address → Account → Word → Action Done
  credit depth b to value = unwrap (prim.u256_add to.value value) >>= set_balance depth b to.value

  abbrev debit : ℕ → Address → Address → Account → Account → Word → Word → Action Done
  debit depth a b from to value left =
      set_balance depth a from.value left >> credit depth b to value

module _ ⦃prim : Primitives⦄ where
  move_value_run :
      (depth : ℕ) (a b : Address) (from to : Account) (value : Word) (s : Machine)
      → s.ext.state a ≡ some from
      → s.ext.state b ≡ some to
      → (b == a) ≡ false
      → value ≤ from.value
      → to.value + value < two256
      → move_value depth a b from.value to.value value s ≡ (
        ok tt,
        posted depth b to.value
            (to.value + value)
            to
            (posted depth a from.value (from.value - value) from s),
      )
  unfolding move_value
  move_value_run depth a b from to value s ha hb ne enough fits =
      let first = posted depth a from.value (from.value - value) from s in
      run_ok (unwrap (prim.u256_sub from.value value)) (debit depth a b from to value) s s
        (from.value - value) (unwrap_run _ s _ (prim.u256_sub_law from.value value ∙ ground arith))
      ∙ run_ok (set_balance depth a from.value (from.value - value)) (λ _. credit depth b to value)
          s first tt (set_balance_run depth a from.value (from.value - value) from s ha)
      ∙ run_ok (unwrap (prim.u256_add to.value value)) (set_balance depth b to.value) first first
          (to.value + value)
          (unwrap_run _ first _ (prim.u256_add_law to.value value ∙ ground arith))
      ∙ set_balance_run depth b to.value (to.value + value) to first (rw ne hb)

-- Whether the value of a call moves.
abbrev is_moved : CallType → Address → Address → Word → Word → Bool
is_moved t this address value funds =
    moves_value t value && leb value funds && not (this == address)

-- A frame of this type gets the value of its call: all but those of DELEGATECALL and STATICCALL.
abbrev carries : CallType → Bool
carries CallType.delegate = false
carries CallType.static = false
carries _ = true

-- What moves: nothing for static and delegate calls, without the funds, and for a call of the
-- account itself.
abbrev pub moved : CallType → Address → Address → Word → Word → Word
moved t this address value funds =
    if carries t && leb value funds && not (this == address) then value else 0

moved_lem :
    (t : CallType) (this address : Address) (value funds : Word)
    → moved t this address value funds ≡ (if is_moved t this address value funds then value else 0)
moved_lem CallType.call this address value funds = ground arith
moved_lem CallType.create this address value funds = ground arith
moved_lem CallType.create2 this address value funds = ground arith
moved_lem CallType.static this address value funds = ground arith
moved_lem CallType.delegate this address value funds = ground arith
moved_lem CallType.callcode this address value funds = ground arith
moved_lem (CallType.precompile a) this address value funds = ground arith

-- The outcome of a transfer of `part`: it succeeds, the balances of the two accounts change by the
-- part, and neither another account nor the stack changes.
pub record IsTransfer (part : Word) (a b : Address) (from to : Account) (before : Machine)
    (after : Outcome Done × Machine) : Type 0 where
  pub succeeds : after.0 ≡ ok tt
  pub debited : value_of a after.1.ext ≡ some (from.value - part)
  pub credited : value_of b after.1.ext ≡ some (to.value + part)
  pub others : (c : Address) → c ≢ a → c ≢ b → after.1.ext.state c ≡ before.ext.state c
  pub same_stack : after.1.evm.stack ≡ before.evm.stack

value_of_cached :
    (a : Address) (ext : Ext) (account : Account)
    → ext.state a ≡ some account
    → value_of a ext ≡ some account.value
value_of_cached a ext account e = rw (value_of, e) refl

nothing-IsTransfer :
    (a b : Address) (from to : Account) (s : Machine)
    → s.ext.state a ≡ some from
    → s.ext.state b ≡ some to
    → IsTransfer 0 a b from to s (ok tt, s)
nothing-IsTransfer a b from to s ha hb = record {
  succeeds = refl;
  debited = value_of_cached a s.ext from ha ∙ ap some (omega arith);
  credited = value_of_cached b s.ext to hb ∙ ap some (omega arith);
  others = λ c p q. refl;
  same_stack = refl;
}

module _ ⦃prim : Primitives⦄ where
  -- `call_transfer` behind the balances.
  abbrev settle : CallType → ℕ → Address → Address → Word → Word → Word → Action Done
  settle t depth this address value funds held =
      if is_moved t this address value funds
      then move_value depth this address funds held value
      else pure tt

  call_transfer_run :
      (t : CallType) (depth : ℕ) (this address : Address) (value : Word) (from to : Account)
      (s : Machine)
      → s.ext.state this ≡ some from
      → s.ext.state address ≡ some to
      → call_transfer t depth this address value s
        ≡ settle t depth this address value from.value to.value s
  unfolding call_transfer
  call_transfer_run t depth this address value from to s ha hb =
      run_ok (on_ext (balance this))
        (λ funds. on_ext (balance address) >>= settle t depth this address value funds) s s
        from.value (balance_run this s from ha)
      ∙ run_ok (on_ext (balance address)) (settle t depth this address value from.value) s s
          to.value (balance_run address s to hb)

  value-IsTransfer :
      (depth : ℕ) (a b : Address) (from to : Account) (value : Word) (s : Machine)
      → s.ext.state a ≡ some from
      → s.ext.state b ≡ some to
      → (b == a) ≡ false
      → value ≤ from.value
      → to.value + value < two256
      → IsTransfer value a b from to s (move_value depth a b from.value to.value value s)
  value-IsTransfer depth a b from to value s ha hb ne enough fits =
      rw (move_value_run depth a b from to value s ha hb ne enough fits) (record {
        succeeds = refl;
        debited = ground arith;
        credited = ground arith;
        others = λ c p q. ground arith;
        same_stack = refl;
      })

  pub call_transfer-IsTransfer :
      (t : CallType) (depth : ℕ) (this address : Address) (value : Word) (from to : Account)
      (s : Machine)
      → s.ext.state this ≡ some from
      → s.ext.state address ≡ some to
      → to.value + value < two256
      → IsTransfer
          (moved t this address value from.value)
          this
          address
          from
          to
          s
          (call_transfer t depth this address value s)
  call_transfer-IsTransfer t depth this address value from to s ha hb fits =
      rw
        (
          call_transfer_run t depth this address value from to s ha hb,
          moved_lem t this address value from.value,
        )
        (elim (Bool-cases (is_moved t this address value from.value)) [
          | inl h ↦ rw (h) (
              value-IsTransfer depth this address from to value s ha hb (ground arith)
                (ground arith) fits)
          | inr h ↦ rw (h) (nothing-IsTransfer this address from to s ha hb)
        ])
