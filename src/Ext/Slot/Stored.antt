-- ===== src/Ext/Slot/Stored.antt =====
-- Reads of `Ext` after a write.
use mathlib.Core.Option
use solenoid.Base.{
  ◌≡◌, ◌≢◌, ◌⊎◌, refl, ap, ◌∙◌, ◌==◌, Bool-cases, inl, inr, true, false, Option-cases, arith,
}
use solenoid.Primitives.{Primitives}
use solenoid.Outcome.{ok}
use solenoid.Word.{Word}
use solenoid.Types.{Address}
use solenoid.Ext.{Account, Ext, new_account, store_slot}
use solenoid.Ext.Slot.{cached, note_original, get, put}
use solenoid.Evm.Revert.Slots.{continue, with_account, with_slot, insert_here, get_known}

module _ ⦃prim : Primitives⦄ (a : Address) (k v : Word) (ext : Ext) where
  abbrev written : Account
  written = with_slot (Option.get_or (ext.state a) new_account) k v

  abbrev stored : Ext
  stored = note_original a k v (store_slot a k v ext)

  put_run : put a k v ext ≡ (ok tt, stored)
  unfolding put store_slot
  put_run = ap (continue (λ _ x. (ok tt, x))) (
      get_known a k v (with_account ext a written) written (insert_here a written ext.state)
        (insert_here k v (Option.get_or (ext.state a) new_account).storage))

  cached_other : (b : Address) (l : Word) → (b ≢ a) ⊎ (l ≢ k) → cached b l stored ≡ cached b l ext
  unfolding store_slot
  cached_other b l other = elim (Bool-cases (b == a)) [
    | inl same ↦
        let here : b ≡ a = ground arith in
        let elsewhere : (l == k) ≡ false = ground arith in
        let self : (a == a) ≡ true = ground arith in
        rw here (elim (Option-cases (ext.state a)) [
          | inl missing ↦ rw (cached, self, missing, elsewhere) refl
          | inr (account, there) ↦ rw (cached, self, there, elsewhere) refl
        ])
    | inr changed ↦ rw (cached, changed) refl
  ]

  -- A write of a slot succeeds in every world state, and a read of the slot then gives the value
  -- that was written.
  get-put : ((put a k v ext).0 ≡ ok tt) × ((get a k (put a k v ext).1).0 ≡ ok v)
  unfolding store_slot
  get-put = (
    ap (λ r. r.0) put_run,
    ap (λ r. (get a k r.1).0) put_run
        ∙ ap (λ r. r.0)
            (get_known a k v stored written (insert_here a written ext.state)
              (insert_here k v (Option.get_or (ext.state a) new_account).storage)),
  )

  -- After a write of a slot, every other slot, one of another account or with another key, holds
  -- in the cache what it held before.
  cached-put :
      (b : Address) (l : Word) → (b ≢ a) ⊎ (l ≢ k) → cached b l (put a k v ext).1 ≡ cached b l ext
  cached-put b l other = ap (λ r. cached b l r.1) put_run ∙ cached_other b l other

  -- What a write of a slot is: an update of the map from slots to values at one place.
  pub record IsWritten : Type 0 where
    pub succeeds : (put a k v ext).0 ≡ ok tt
    pub reads : (get a k (put a k v ext).1).0 ≡ ok v
    pub keeps :
        (b : Address) (l : Word) → (b ≢ a) ⊎ (l ≢ k) → cached b l (put a k v ext).1 ≡ cached b l ext

  -- In every world state a write of a slot succeeds, a read of the slot then gives the value that
  -- was written, and every other slot, one of another account or with another key, holds in the
  -- cache what it held before.
  pub put-IsWritten : IsWritten
  put-IsWritten = record { succeeds = get-put.0; reads = get-put.1; keeps = cached-put }
