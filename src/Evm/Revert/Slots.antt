-- ===== src/Evm/Revert/Slots.antt =====
-- Writes to the maps of src/ext.rs, undone.

use solenoid.Base.{ℕ, ◌≡◌, refl, ap, sym, fun_ext, ◌∙◌, false, some, arith, if◌then◌else◌}
use solenoid.Maps.{Map, PairMap, PairSet, insert, or_insert_pair, add_pair, del_pair}
use solenoid.Outcome.{Outcome, ok, err, panic, unfinished}
use solenoid.Primitives.{Primitives}
use solenoid.Word.{Word}
use solenoid.Types.{Address}
use solenoid.Ext.{Account, Ext, Access, store_slot, pull, is_storage_warm, warm_storage}
use solenoid.Ext.Slot.{cached, note_original, get, put, read_slot}

pub insert-insert {ℓ} :
    {V : Type ℓ} (k : ℕ) (v w : V) (m : Map V) → m k ≡ some v → insert k v (insert k w m) ≡ m
insert-insert k v w m h = fun_ext λ j. ground arith

pub del_pair-add_pair : (a k : ℕ) (s : PairSet) → s a k ≡ false → del_pair a k (add_pair a k s) ≡ s
del_pair-add_pair a k s h = fun_ext λ b. fun_ext λ j. ground arith

pub or_insert_pair_known {ℓ} :
    {V : Type ℓ} (a k : ℕ) (v : V) {w : V} (m : PairMap V)
    → m a k ≡ some w
    → or_insert_pair a k v m ≡ m
or_insert_pair_known a k v m h = rw (or_insert_pair, h)

abbrev pub with_slot : Account → Word → Word → Account
with_slot account k v = record account { storage = insert k v account.storage }

abbrev pub with_account : Ext → Address → Account → Ext
with_account ext a account = record ext { state = insert a account ext.state }

pub store_slot_known :
    (a : Address) (k v : Word) (ext : Ext) (account : Account)
    → ext.state a ≡ some account
    → store_slot a k v ext ≡ with_account ext a (with_slot account k v)
unfolding store_slot
store_slot_known a k v ext account h = rw h

pub insert_here {ℓ} : {V : Type ℓ} (k : ℕ) (v : V) (m : Map V) → insert k v m k ≡ some v
insert_here k v m = ground arith

-- A slot that is written and then written back.
pub store_slot-store_slot :
    (a : Address) (k old new : Word) (ext : Ext) (account : Account)
    → ext.state a ≡ some account
    → account.storage k ≡ some old
    → store_slot a k old (store_slot a k new ext) ≡ ext
store_slot-store_slot a k old new ext account h slot =
    let written : Account = with_slot account k new in
    let back : with_slot written k old ≡ account =
      ap (λ (m : Map Word). record account { storage = m })
        (insert-insert k old new account.storage slot) in
    ap (store_slot a k old) (store_slot_known a k new ext account h)
    ∙ store_slot_known a k old (with_account ext a written) written
        (insert_here a written ext.state)
    ∙ ap (with_account (with_account ext a written) a) back
    ∙ ap (λ (m : Map Account). record ext { state = m })
        (insert-insert a account written ext.state h)

-- The slot, as `access_slot` of an instruction leaves it.
unfoldable pub accessed : Address → Word → Ext → Ext
accessed a k ext = if is_storage_warm a k ext then ext else warm_storage a k ext

abbrev pub continue : {A B : Type 0} → (A → Access B) → Outcome A × Ext → Outcome B × Ext
continue k (r, ext) = elim r [
  | ok a ↦ k a ext
  | err e ↦ (err e, ext)
  | panic ↦ (panic, ext)
  | unfinished ↦ (unfinished, ext)
]

read_slot_known :
    (a : Address) (k v : Word) (ext : Ext) (account : Account)
    → ext.state a ≡ some account
    → account.storage k ≡ some v
    → read_slot a k ext ≡ (ok v, note_original a k v ext)
unfolding read_slot
read_slot_known a k v ext account h slot =
    let there : cached a k ext ≡ some v = rw (cached, h) slot in rw (read_slot, there) refl

module _ ⦃prim : Primitives⦄ where
  pub pull_known :
      (a : Address) (ext : Ext) (account : Account)
      → ext.state a ≡ some account
      → pull a ext ≡ (ok account, ext)
  unfolding pull
  pull_known a ext account h = rw (pull, h) refl

  -- A read of a cached slot notes its value as the original one, unless one is noted already.
  pub get_known :
      (a : Address) (k v : Word) (ext : Ext) (account : Account)
      → ext.state a ≡ some account
      → account.storage k ≡ some v
      → get a k ext ≡ (ok v, note_original a k v ext)
  unfolding get
  get_known a k v ext account h slot =
      ap (continue (λ _. read_slot a k)) (pull_known a ext account h)
      ∙ read_slot_known a k v ext account h slot

  -- A write is followed by such a read.
  pub put_known :
      (a : Address) (k v : Word) (ext : Ext) (account : Account)
      → ext.state a ≡ some account
      → put a k v ext ≡ (ok tt, note_original a k v (store_slot a k v ext))
  unfolding put
  put_known a k v ext account h =
      let written = with_slot account k v in
      let stored = store_slot_known a k v ext account h in
      ap (continue (λ _ x. (ok tt, x))) (
        ap (get a k) stored
        ∙ get_known a k v (with_account ext a written) written (insert_here a written ext.state)
            (insert_here k v account.storage)
        ∙ ap (λ x. (ok v, note_original a k v x)) (sym stored))
