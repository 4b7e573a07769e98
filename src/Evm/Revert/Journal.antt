-- ===== src/Evm/Revert/Journal.antt =====
-- A frame's touches as a journal: `revert` of src/executor.rs takes back what they record.
use mathlib.Core.List.{reverse}
use solenoid.Base.{
  ℕ, ◌≡◌, refl, ap, sym, fun_ext, ◌∙◌, false, Bool-cases, inl, inr, some, List, [], ◌∷◌, ◌++◌,
  arith,
}
use solenoid.Primitives.{Primitives}
use solenoid.Maps.{Map, insert, insert_pair, add, del, Set, PairMap, or_zero}
use solenoid.Outcome.{ok}
use solenoid.Word.{Word}
use solenoid.Types.{Address, AccountTouch}
use solenoid.Ext.{
  Account, Ext, store_slot, is_storage_warm, is_address_warm, warm_address, warm_storage, balance,
  code, pull,
}
use solenoid.Ext.Slot.{get, put, note_original, change_account}
use solenoid.Evm.{Evm}
use solenoid.Evm.Revert.{empty_hash, cool_slot, undo, undo_all, revert}
use solenoid.Evm.Revert.Slots.{
  accessed, with_account, insert-insert, insert_here, del_pair-add_pair, pull_known, put_known,
  get_known, store_slot-store_slot,
}
use solenoid.Evm.Revert.Observed.{
  observed, outcome, cool_slot-observed, undo-observed, settle_undone, undo_all-last,
}

-- An account without code, nonce and value.
pub record IsVacant (account : Account) : Type 0 where
  pub no_code : account.code ≡ ([], empty_hash)
  pub no_nonce : account.nonce ≡ 0
  pub no_value : account.value ≡ 0

-- What a creation makes of an account.
abbrev pub deployed : List ℕ → Word → Word → Account → Account
deployed bytes hash value account = record account {
  code = (bytes, hash);
  nonce = 1;
  value = value;
}

-- What the accesses of a frame do to the world state, and the touches that they record.
pub data Journal ⦃prim : Primitives⦄ (first : Ext) : List AccountTouch → Ext → Type 0 where
  start : Journal first [] first
  write :
      (a : Address) (k old new : Word) (account : Account) {ts : List AccountTouch} {ext : Ext}
      → Journal first ts ext
      → ext.state a ≡ some account
      → account.storage k ≡ some old
      → Journal first
          (ts ++ AccountTouch.set_state a k old new (is_storage_warm a k ext) ∷ [])
          (put a k new (get a k (accessed a k ext)).1).1
  read :
      (a : Address) (k v : Word) (account : Account) {ts : List AccountTouch} {ext : Ext}
      → Journal first ts ext
      → ext.state a ≡ some account
      → account.storage k ≡ some v
      → Journal first
          (ts ++ AccountTouch.get_state a k v (is_storage_warm a k ext) ∷ [])
          (get a k (accessed a k ext)).1
  transient :
      (a : Address) (k new : Word) {ts : List AccountTouch} {ext : Ext}
      → Journal first ts ext
      → Journal first
          (ts ++ AccountTouch.set_transient_state a k (or_zero (ext.transient a k)) new ∷ [])
          (record ext { transient = insert_pair a k new ext.transient })
  nonce :
      (a : Address) (new : ℕ) (account : Account) {ts : List AccountTouch} {ext : Ext}
      → Journal first ts ext
      → ext.state a ≡ some account
      → Journal first
          (ts ++ AccountTouch.set_nonce a account.nonce new ∷ [])
          (change_account a (λ x. record x { nonce = new }) ext).1
  value :
      (a : Address) (new : Word) (account : Account) {ts : List AccountTouch} {ext : Ext}
      → Journal first ts ext
      → ext.state a ≡ some account
      → Journal first
          (ts ++ AccountTouch.set_value a account.value new ∷ [])
          (change_account a (λ x. record x { value = new }) ext).1
  -- The deployment of a code at a vacant account, without and with a value.
  deploy :
      (a : Address) (bytes : List ℕ) (hash : Word) (account : Account) {ts : List AccountTouch}
      {ext : Ext}
      → Journal first ts ext
      → ext.state a ≡ some account
      → IsVacant account
      → Journal first
          (ts ++ AccountTouch.create a 0 1 bytes hash ∷ [])
          (change_account a (deployed bytes hash 0) ext).1
  endow :
      (a : Address) (given : Word) (bytes : List ℕ) (hash : Word) (account : Account)
      {ts : List AccountTouch} {ext : Ext}
      → Journal first ts ext
      → ext.state a ≡ some account
      → IsVacant account
      → Journal first
          ((ts ++ AccountTouch.set_value a account.value given ∷ [])
            ++ AccountTouch.create a given 1 bytes hash ∷ [])
          (change_account a (deployed bytes hash given) ext).1
  read_value :
      (a : Address) (account : Account) {ts : List AccountTouch} {ext : Ext}
      → Journal first ts ext
      → ext.state a ≡ some account
      → Journal first (ts ++ AccountTouch.get_value a account.value ∷ []) (balance a ext).1
  read_code :
      (a : Address) (account : Account) {ts : List AccountTouch} {ext : Ext}
      → Journal first ts ext
      → ext.state a ≡ some account
      → Journal first
          (ts ++ AccountTouch.get_code a account.code.1 account.code.0 ∷ [])
          (code a ext).1
  -- An account that the cache holds is read without a touch.
  look :
      (a : Address) (account : Account) {ts : List AccountTouch} {ext : Ext}
      → Journal first ts ext
      → ext.state a ≡ some account
      → Journal first ts (pull a ext).1
  warm_up :
      (a : Address) {ts : List AccountTouch} {ext : Ext}
      → Journal first ts ext
      → is_address_warm a ext ≡ false
      → Journal first (ts ++ AccountTouch.warm_up a ∷ []) (warm_address a ext).1

state-accessed : (a : Address) (k : Word) (ext : Ext) → (accessed a k ext).state ≡ ext.state
unfolding accessed warm_storage
state-accessed a k ext = elim (Bool-cases (is_storage_warm a k ext)) [
  | inl warm ↦ rw warm refl
  | inr cold ↦ rw cold refl
]

cool_slot-accessed :
    (a : Address) (k : Word) (ext : Ext)
    → cool_slot a k (is_storage_warm a k ext) (accessed a k ext) ≡ ext
unfolding accessed warm_storage cool_slot
cool_slot-accessed a k ext = elim (Bool-cases (is_storage_warm a k ext)) [
  | inl warm ↦ rw warm refl
  | inr cold ↦ rw cold (
      ap (λ m. record ext { accessed_storage = m })
        (del_pair-add_pair a k ext.accessed_storage cold))
]

change_account_known :
    (a : Address) (f : Account → Account) (ext : Ext) (account : Account)
    → ext.state a ≡ some account
    → change_account a f ext ≡ (ok tt, with_account ext a (f account))
unfolding change_account
change_account_known a f ext account h = rw (change_account, h) refl

change_account-change_account :
    (a : Address) (f g : Account → Account) (ext : Ext) (account : Account)
    → ext.state a ≡ some account
    → g (f account) ≡ account
    → change_account a g (change_account a f ext).1 ≡ (ok tt, ext)
change_account-change_account a f g ext account h e =
    ap (λ x. change_account a g x.1) (change_account_known a f ext account h)
    ∙ change_account_known a g (with_account ext a (f account)) (f account)
        (insert_here a (f account) ext.state)
    ∙ ap (λ x. (ok tt, with_account (with_account ext a (f account)) a x)) e
    ∙ ap (λ m. (ok tt, record ext { state = m })) (insert-insert a account (f account) ext.state h)

del-add : (a : ℕ) (s : Set) → s a ≡ false → del a (add a s) ≡ s
del-add a s h = fun_ext λ j. ground arith

vacated :
    (account : Account)
    → IsVacant account
    → record account { code = ([], empty_hash); nonce = 0; value = 0 } ≡ account
vacated account h =
    ap (λ c. record account { code = c; nonce = 0; value = 0 }) (sym h.no_code)
    ∙ ap (λ n. record account { nonce = n; value = 0 }) (sym h.no_nonce)
    ∙ ap (λ v. record account { value = v }) (sym h.no_value)

insert_same :
    (a : Address) (account : Account) (m : Map Account)
    → m a ≡ some account
    → insert a account m ≡ m
insert_same a account m h = fun_ext λ j. ground arith

module _ ⦃prim : Primitives⦄ where
  undo-write :
      (a : Address) (k old new : Word) (ext : Ext) (account : Account)
      → ext.state a ≡ some account
      → account.storage k ≡ some old
      → outcome (
          undo
            (AccountTouch.set_state a k old new (is_storage_warm a k ext))
            (put a k new (get a k (accessed a k ext)).1).1)
        ≡ (ok tt, observed ext)
  unfolding undo
  undo-write a k old new ext account h slot =
      let warm = is_storage_warm a k ext in
      let t = AccountTouch.set_state a k old new warm in
      let there : (accessed a k ext).state a ≡ some account =
        ap (λ m. m a) (state-accessed a k ext) ∙ h in
      let noted = note_original a k old (accessed a k ext) in
      let written = store_slot a k new noted in
      ap (λ x. outcome (undo t (put a k new x.1).1))
        (get_known a k old (accessed a k ext) account there slot)
      ∙ ap (λ x. outcome (undo t x.1)) (put_known a k new noted account there)
      ∙ sym (undo-observed t (note_original a k new written))
      ∙ undo-observed t written
      ∙ ap (λ x. (ok tt, observed (cool_slot a k warm x)))
          (store_slot-store_slot a k old new noted account there slot)
      ∙ ap (λ x. (ok tt, x))
          (sym (cool_slot-observed a k warm noted) ∙ cool_slot-observed a k warm (accessed a k ext))
      ∙ ap (λ x. (ok tt, observed x)) (cool_slot-accessed a k ext)

  undo-deploy :
      (a : Address) (held given : Word) (bytes : List ℕ) (hash : Word) (ext : Ext)
      (account : Account)
      → ext.state a ≡ some account
      → IsVacant account
      → outcome (
          undo
            (AccountTouch.create a given 1 bytes hash)
            (change_account a (deployed bytes hash held) ext).1)
        ≡ (ok tt, observed ext)
  unfolding undo
  undo-deploy a held given bytes hash ext account h vacant = ap outcome (
      change_account-change_account a (deployed bytes hash held) _ ext account h
        (vacated account vacant))

  undo-same_value :
      (a : Address) (new : Word) (ext : Ext) (account : Account)
      → ext.state a ≡ some account
      → outcome (undo (AccountTouch.set_value a account.value new) ext) ≡ (ok tt, observed ext)
  unfolding undo
  undo-same_value a new ext account h =
      ap outcome (change_account_known a _ ext account h)
      ∙ ap (λ m. (ok tt, observed (record ext { state = m }))) (insert_same a account ext.state h)

  undo-read :
      (a : Address) (k v : Word) (ext : Ext) (account : Account)
      → ext.state a ≡ some account
      → account.storage k ≡ some v
      → outcome (
          undo
            (AccountTouch.get_state a k v (is_storage_warm a k ext))
            (get a k (accessed a k ext)).1)
        ≡ (ok tt, observed ext)
  unfolding undo
  undo-read a k v ext account h slot =
      let t = AccountTouch.get_state a k v (is_storage_warm a k ext) in
      let there : (accessed a k ext).state a ≡ some account =
        ap (λ m. m a) (state-accessed a k ext) ∙ h in
      ap (λ x. outcome (undo t x.1)) (get_known a k v (accessed a k ext) account there slot)
      ∙ sym (undo-observed t (note_original a k v (accessed a k ext)))
      ∙ undo-observed t (accessed a k ext)
      ∙ ap (λ x. (ok tt, observed x)) (cool_slot-accessed a k ext)

  balance_known :
      (a : Address) (ext : Ext) (account : Account)
      → ext.state a ≡ some account
      → (balance a ext).1 ≡ ext
  unfolding balance
  balance_known a ext account h = ap (λ r. r.1) (pull_known a ext account h)

  code_known :
      (a : Address) (ext : Ext) (account : Account)
      → ext.state a ≡ some account
      → (code a ext).1 ≡ ext
  unfolding code
  code_known a ext account h = ap (λ r. r.1) (pull_known a ext account h)

  undo_all-Journal :
      {first : Ext} {ts : List AccountTouch} {ext : Ext}
      → Journal first ts ext
      → outcome (undo_all (reverse ts) ext) ≡ (ok tt, observed first)
  unfolding undo undo_all warm_address
  undo_all-Journal start = refl
  undo_all-Journal (write a k old new account {ts} {ext} j h slot) =
      undo_all-last (AccountTouch.set_state a k old new (is_storage_warm a k ext)) ts _ ext
        (undo-write a k old new ext account h slot)
      ∙ undo_all-Journal j
  undo_all-Journal (read a k v account {ts} {ext} j h slot) =
      undo_all-last (AccountTouch.get_state a k v (is_storage_warm a k ext)) ts _ ext
        (undo-read a k v ext account h slot)
      ∙ undo_all-Journal j
  undo_all-Journal (transient a k new {ts} {ext} j) =
      undo_all-last (AccountTouch.set_transient_state a k (or_zero (ext.transient a k)) new) ts _
        ext
        (ap (λ (m : PairMap Word). (ok tt, record (observed ext) { transient = m }))
          (settle_undone a k new ext.transient))
      ∙ undo_all-Journal j
  undo_all-Journal (nonce a new account {ts} {ext} j h) =
      undo_all-last (AccountTouch.set_nonce a account.nonce new) ts _ ext
        (ap outcome (change_account-change_account a _ _ ext account h refl))
      ∙ undo_all-Journal j
  undo_all-Journal (value a new account {ts} {ext} j h) =
      undo_all-last (AccountTouch.set_value a account.value new) ts _ ext
        (ap outcome (change_account-change_account a _ _ ext account h refl))
      ∙ undo_all-Journal j
  undo_all-Journal (deploy a bytes hash account {ts} {ext} j h vacant) =
      undo_all-last (AccountTouch.create a 0 1 bytes hash) ts _ ext
        (undo-deploy a 0 0 bytes hash ext account h vacant)
      ∙ undo_all-Journal j
  undo_all-Journal (endow a given bytes hash account {ts} {ext} j h vacant) =
      let credit = AccountTouch.set_value a account.value given in
      undo_all-last (AccountTouch.create a given 1 bytes hash) (ts ++ credit ∷ []) _ ext
        (undo-deploy a given given bytes hash ext account h vacant)
      ∙ undo_all-last credit ts _ ext (undo-same_value a given ext account h)
      ∙ undo_all-Journal j
  undo_all-Journal (read_value a account {ts} {ext} j h) =
      undo_all-last (AccountTouch.get_value a account.value) ts _ ext
        (ap outcome (ap (λ x. (ok tt, x)) (balance_known a ext account h)))
      ∙ undo_all-Journal j
  undo_all-Journal (read_code a account {ts} {ext} j h) =
      undo_all-last (AccountTouch.get_code a account.code.1 account.code.0) ts _ ext
        (ap outcome (ap (λ x. (ok tt, x)) (code_known a ext account h)))
      ∙ undo_all-Journal j
  undo_all-Journal {first} (look a account {ts} {ext} j h) =
      ap (λ x. outcome (undo_all (reverse ts) x.1)) (pull_known a ext account h)
      ∙ undo_all-Journal j
  undo_all-Journal (warm_up a {ts} {ext} j cold) =
      undo_all-last (AccountTouch.warm_up a) ts _ ext (
        ap (λ m. (ok tt, observed (record ext { accessed_addresses = m })))
          (del-add a ext.accessed_addresses cold))
      ∙ undo_all-Journal j

  pub revert-Journal :
      {first : Ext} {ext : Ext} (evm : Evm)
      → Journal first evm.touches ext
      → outcome (revert evm ext) ≡ (ok tt, observed first)
  unfolding revert
  revert-Journal evm j = undo_all-Journal j
