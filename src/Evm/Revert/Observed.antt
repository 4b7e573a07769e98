-- ===== src/Evm/Revert/Observed.antt =====
-- What of the world state src/ext.rs the rest of a transaction can tell, and that `undo` of a touch
-- does not look at more.
use mathlib.Core.List.{reverse, reverse-append}
use solenoid.Base.{
  ℕ, ◌≡◌, refl, ap, sym, fun_ext, ◌∙◌, Bool, true, false, inl, inr, none, some, Option-cases, List,
  [], ◌∷◌, ◌++◌, arith,
}
use solenoid.Maps.{insert_pair, PairMap, or_zero}
use solenoid.Outcome.{Outcome, ok, err, panic, unfinished, Done}
use solenoid.Word.{Word}
use solenoid.Types.{Address, AccountTouch}
use solenoid.Ext.{Account, Ext, Access, store_slot}
use solenoid.Ext.Slot.{change_account}
use solenoid.Evm.Revert.{cool_slot, undo, undo_all}

-- A transient slot without a value reads as zero.
abbrev pub settle : PairMap Word → PairMap Word
settle m a k = some (or_zero (m a k))

-- The world state as the rest of the transaction can tell it: without the notes of original
-- values, and with the transient storage as it reads.
abbrev pub observed : Ext → Ext
observed ext = record ext { original = λ _ _. none; transient = settle ext.transient }

abbrev pub outcome : Outcome Done × Ext → Outcome Done × Ext
outcome (r, ext) = (r, observed ext)

settle-insert_pair :
    (a k v : ℕ) (m : PairMap Word) → insert_pair a k v (settle m) ≡ settle (insert_pair a k v m)
settle-insert_pair a k v m = fun_ext λ b. fun_ext λ j. ground arith

change_account-observed :
    (a : Address) (f : Account → Account) (ext : Ext)
    → change_account a f (observed ext) ≡ outcome (change_account a f ext)
unfolding change_account
change_account-observed a f ext = elim (Option-cases (ext.state a)) [
  | inl missing ↦ rw (change_account, missing) refl
  | inr (account, there) ↦ rw (change_account, there) refl
]

pub cool_slot-observed :
    (a : Address) (k : Word) (w : Bool) (ext : Ext)
    → cool_slot a k w (observed ext) ≡ observed (cool_slot a k w ext)
unfolding cool_slot
cool_slot-observed a k true ext = refl
cool_slot-observed a k false ext = refl

-- Undoing a touch does not look at what is left out.
pub undo-observed : (t : AccountTouch) (ext : Ext) → undo t (observed ext) ≡ outcome (undo t ext)
unfolding undo store_slot
undo-observed (AccountTouch.set_state a k val _ w) ext =
    ap (λ x. (ok tt, x)) (cool_slot-observed a k w (store_slot a k val ext))
undo-observed (AccountTouch.set_transient_state a k val _) ext =
    ap (λ (m : PairMap Word). (ok tt, record (observed ext) { transient = m }))
      (settle-insert_pair a k val ext.transient)
undo-observed (AccountTouch.get_state a k _ w) ext =
    ap (λ x. (ok tt, x)) (cool_slot-observed a k w ext)
undo-observed (AccountTouch.set_nonce a val _) ext = change_account-observed a _ ext
undo-observed (AccountTouch.set_value a val _) ext = change_account-observed a _ ext
undo-observed (AccountTouch.create a _ _ _ _) ext = change_account-observed a _ ext
undo-observed (AccountTouch.warm_up a) ext = refl
undo-observed _ ext = refl

pub settle_undone :
    (a k new : ℕ) (m : PairMap Word)
    → settle (insert_pair a k (or_zero (m a k)) (insert_pair a k new m)) ≡ settle m
settle_undone a k new m = fun_ext λ b. fun_ext λ j. ground arith

abbrev proceed : Access Done → Outcome Done × Ext → Outcome Done × Ext
proceed k (r, ext) = elim r [
  | ok _ ↦ k ext
  | err e ↦ (err e, ext)
  | panic ↦ (panic, ext)
  | unfinished ↦ (unfinished, ext)
]

outcome-proceed :
    (k : Access Done)
    → ((ext : Ext) → outcome (k ext) ≡ k (observed ext))
    → (p : Outcome Done × Ext) → outcome (proceed k p) ≡ proceed k (outcome p)
outcome-proceed k h (ok _, ext) = h ext
outcome-proceed k h (err e, ext) = refl
outcome-proceed k h (panic, ext) = refl
outcome-proceed k h (unfinished, ext) = refl

undo_all-observed :
    (ts : List AccountTouch) (ext : Ext) → outcome (undo_all ts ext) ≡ undo_all ts (observed ext)
unfolding undo_all
undo_all-observed [] ext = refl
undo_all-observed (t ∷ ts) ext =
    outcome-proceed (undo_all ts) (undo_all-observed ts) (undo t ext)
    ∙ ap (proceed (undo_all ts)) (sym (undo-observed t ext))

-- When the first touch is undone, the rest is undone from there.
undo_all-cons :
    (t : AccountTouch) (ts : List AccountTouch) (x y : Ext)
    → outcome (undo t x) ≡ (ok tt, observed y)
    → outcome (undo_all (t ∷ ts) x) ≡ outcome (undo_all ts y)
unfolding undo_all
undo_all-cons t ts x y e =
    outcome-proceed (undo_all ts) (undo_all-observed ts) (undo t x)
    ∙ ap (proceed (undo_all ts)) e
    ∙ sym (undo_all-observed ts y)

pub undo_all-last :
    (t : AccountTouch) (ts : List AccountTouch) (x y : Ext)
    → outcome (undo t x) ≡ (ok tt, observed y)
    → outcome (undo_all (reverse (ts ++ t ∷ [])) x) ≡ outcome (undo_all (reverse ts) y)
undo_all-last t ts x y e =
    ap (λ l. outcome (undo_all l x)) (reverse-append ts (t ∷ []))
    ∙ undo_all-cons t (reverse ts) x y e
