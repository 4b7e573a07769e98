-- ===== src/Step/Progress/World.antt =====
-- The calls of src/ext.rs end, and the access to an account costs more than 0.
use solenoid.Base.{◌≡◌, refl, Bool, true, false, Option, none, some, arith, if◌then◌else◌}
use solenoid.Base.Int.{ℤ, pos}
use solenoid.Primitives.{Primitives}
use solenoid.Outcome.{Outcome, ok, err, panic, unfinished, Done, or_remote_failed}
use solenoid.Word.{Word}
use solenoid.Types.{Address, AccountTouch}
use solenoid.Ext.{
  Account, Ext, Access, Remote, balance, nonce, code, pull, fetch, is_address_warm, warm_address,
  store_slot,
}
use solenoid.Ext.Slot
use solenoid.Machine.{Machine, Action, Handler, ◌>>=◌, ◌>>◌, pure, modify_ext, touch}
use solenoid.Instr.Env.{is_precompile, address_access_cost}
use solenoid.Step.Progress.{
  AsksGas, Asked, Ended, Ends, KeepsGas, AsksGas-bind, IsPositive, progress_rules,
}

module _ ⦃prim : Primitives⦄ where
  pull_fetched :
      (o : Option Account) (a : Address) (eth : Remote) (ext : Ext)
      → fetch a eth ≡ o
      → ext.state a ≡ none
      → ext.remote ≡ some eth
      → Ended (pull a ext).0
  unfolding pull
  pull_fetched none a eth ext e missing there = rw (pull, missing, there, e) tt
  pull_fetched (some account) a eth ext e missing there = rw (pull, missing, there, e) tt

  pull_missing :
      (o : Option Remote) (a : Address) (ext : Ext)
      → ext.remote ≡ o
      → ext.state a ≡ none
      → Ended (pull a ext).0
  unfolding pull
  pull_missing none a ext e missing = rw (pull, missing, e) tt
  pull_missing (some eth) a ext e missing = pull_fetched (fetch a eth) a eth ext refl missing e

  pull_at : (o : Option Account) (a : Address) (ext : Ext) → ext.state a ≡ o → Ended (pull a ext).0
  unfolding pull
  pull_at none a ext e = pull_missing ext.remote a ext refl e
  pull_at (some account) a ext e = rw (pull, e) tt

  pub pull-Ends : (a : Address) → Ends (pull a)
  pull-Ends a = record { at = λ ext. pull_at (ext.state a) a ext refl }

  -- What is read of an account ends when the account does.
  read_ends :
      {A : Type 0} (r : Outcome Account) (f : Account → A)
      → Ended r
      → Ended (elim r [
        | ok account ↦ ok (f account)
        | err e ↦ err e
        | panic ↦ panic
        | unfinished ↦ unfinished
      ])
  read_ends (ok account) f h = tt
  read_ends (err e) f h = tt
  read_ends panic f h = tt
  read_ends unfinished f h = h

  pub balance-Ends : (a : Address) → Ends (balance a)
  unfolding balance
  balance-Ends a = record {
    at = λ ext. read_ends (pull a ext).0 (λ account. account.value) ((pull-Ends a).at ext);
  }

  pub nonce-Ends : (a : Address) → Ends (nonce a)
  unfolding nonce
  nonce-Ends a = record {
    at = λ ext. read_ends (pull a ext).0 (λ account. account.nonce) ((pull-Ends a).at ext);
  }

  pub code-Ends : (a : Address) → Ends (code a)
  unfolding code
  code-Ends a = record {
    at = λ ext. read_ends (pull a ext).0 (λ account. account.code) ((pull-Ends a).at ext);
  }

  hash_ends : (o : Option Word) → Ended (or_remote_failed o)
  hash_ends none = tt
  hash_ends (some w) = tt

  hash_at :
      (o : Option Remote) (w : Word) (ext : Ext)
      → ext.remote ≡ o
      → Ended (Slot.get_block_hash w ext).0
  unfolding Slot.get_block_hash
  hash_at none w ext e = rw (Slot.get_block_hash, e) tt
  hash_at (some eth) w ext e = rw (Slot.get_block_hash, e) (hash_ends (eth.get_block_hash w))

  pub get_block_hash-Ends : (w : Word) → Ends (Slot.get_block_hash w)
  get_block_hash-Ends w = record { at = λ ext. hash_at ext.remote w ext refl }

  -- The parts of the calls that do several.
  bind_ends :
      {A B : Type 0} (r : Outcome A × Ext) (f : A → Access B)
      → Ended r.0
      → ((a : A) → Ends (f a))
      → Ended (Slot.◌>>=◌ (λ _. r) f r.1).0
  bind_ends (ok a, ext) f h k = (k a).at ext
  bind_ends (err e, ext) f h k = tt
  bind_ends (panic, ext) f h k = tt
  bind_ends (unfinished, ext) f h k = h

  Ends-bind :
      {A B : Type 0} (m : Access A) (f : A → Access B)
      → Ends m
      → ((a : A) → Ends (f a))
      → Ends (Slot.◌>>=◌ m f)
  Ends-bind m f hm hf = record { at = λ ext. bind_ends (m ext) f (hm.at ext) hf }

  Ends-pure : {A : Type 0} (a : A) → Ends (Slot.pure a)
  Ends-pure a = record { at = λ ext. tt }

  pub is_empty-Ends : (a : Address) → Ends (Slot.is_empty a)
  unfolding Slot.is_empty
  is_empty-Ends a = search (Ends-bind, Ends-pure, balance-Ends, nonce-Ends, code-Ends)

  change_at :
      (o : Option Account) (a : Address) (f : Account → Account) (ext : Ext)
      → ext.state a ≡ o
      → Ended (Slot.change_account a f ext).0
  unfolding Slot.change_account
  change_at none a f ext e = rw (Slot.change_account, e) tt
  change_at (some account) a f ext e = rw (Slot.change_account, e) tt

  pub change_account-Ends : (a : Address) (f : Account → Account) → Ends (Slot.change_account a f)
  change_account-Ends a f = record { at = λ ext. change_at (ext.state a) a f ext refl }

  read_remote :
      (o : Option Word) (a : Address) (k : Word) (eth : Remote) (ext : Ext)
      → eth.get_storage_at a k ≡ o
      → Slot.cached a k ext ≡ none
      → ext.remote ≡ some eth
      → Ended (Slot.read_slot a k ext).0
  unfolding Slot.read_slot
  read_remote none a k eth ext e missing there = rw (Slot.read_slot, missing, there, e) tt
  read_remote (some w) a k eth ext e missing there = rw (Slot.read_slot, missing, there, e) tt

  read_missing :
      (o : Option Remote) (a : Address) (k : Word) (ext : Ext)
      → ext.remote ≡ o
      → Slot.cached a k ext ≡ none
      → Ended (Slot.read_slot a k ext).0
  unfolding Slot.read_slot
  read_missing none a k ext e missing = rw (Slot.read_slot, missing, e) tt
  read_missing (some eth) a k ext e missing =
      read_remote (eth.get_storage_at a k) a k eth ext refl missing e

  read_at :
      (o : Option Word) (a : Address) (k : Word) (ext : Ext)
      → Slot.cached a k ext ≡ o
      → Ended (Slot.read_slot a k ext).0
  unfolding Slot.read_slot
  read_at none a k ext e = read_missing ext.remote a k ext refl e
  read_at (some w) a k ext e = rw (Slot.read_slot, e) tt

  read_slot-Ends : (a : Address) (k : Word) → Ends (Slot.read_slot a k)
  read_slot-Ends a k = record { at = λ ext. read_at (Slot.cached a k ext) a k ext refl }

  pub get-Ends : (a : Address) (k : Word) → Ends (Slot.get a k)
  unfolding Slot.get
  get-Ends a k = search (Ends-bind, pull-Ends, read_slot-Ends)

  put_inner : (a : Address) (k : Word) → Ends (Slot.◌>>=◌ (Slot.get a k) λ _. Slot.pure tt)
  put_inner a k = search (Ends-bind, Ends-pure, get-Ends)

  pub put-Ends : (a : Address) (k v : Word) → Ends (Slot.put a k v)
  unfolding Slot.put
  put-Ends a k v = record { at = λ ext. (put_inner a k).at (store_slot a k v ext) }

  abbrev warmed : Address → Action Done
  warmed a = modify_ext (λ ext. (warm_address a ext).1) >> touch (AccountTouch.warm_up a)

  warmed-KeepsGas : (a : Address) → KeepsGas (warmed a)
  warmed-KeepsGas a = search progress_rules

  -- The access costs 100 or 2600.
  access_split :
      (known warm : Bool) (a : Address) (f : ℤ → Handler) (s : Machine)
      → ((gas : ℤ) → IsPositive gas → AsksGas (f gas))
      → Asked s (
          ((λ t.
                if known
                then (ok (pos 100), t)
                else if warm
                then (ok (pos 100), t)
                else (warmed a >> pure (pos 2600)) t)
              >>= f)
            s)
  unfolding modify_ext touch
  access_split true warm a f s k = (k (pos 100) (omega arith)).at s
  access_split false true a f s k = (k (pos 100) (omega arith)).at s
  access_split false false a f s k =
      (AsksGas-bind (warmed a) (λ _. f (pos 2600)) (warmed-KeepsGas a)
          λ _. k (pos 2600) (omega arith)).at
        s

  pub access-AsksGas :
      (a : Address) (f : ℤ → Handler)
      → ((gas : ℤ) → IsPositive gas → AsksGas (f gas))
      → AsksGas (address_access_cost a >>= f)
  unfolding address_access_cost
  access-AsksGas a f k = record {
    at = λ s. access_split (is_precompile a) (is_address_warm a s.ext) a f s k;
  }

pub ruleset world_rules = (
  access-AsksGas, progress_rules, pull-Ends, balance-Ends, nonce-Ends, code-Ends,
  get_block_hash-Ends, is_empty-Ends, change_account-Ends, get-Ends, put-Ends,
)
