-- ===== src/Evm/Revert.antt =====
-- `Evm::revert` of src/executor.rs: the touches of a frame undone, the last one first.
pub mod Slots
pub mod Observed
pub mod Journal
use mathlib.Core.List.{reverse}
use mathlib.Core.Option
use solenoid.Base.{ℕ, Bool, true, false, not, List, [], ◌∷◌, if◌then◌else◌}
use solenoid.Outcome.{Outcome, ok, err, panic, Done}
use solenoid.Word.{Word, zero_word}
use solenoid.Maps.{insert_pair, del, del_pair}
use solenoid.Types.{Address, AccountTouch}
use solenoid.Ext.{Account, Ext, Access, store_slot}
use solenoid.Ext.Slot.{◌>>=◌, ◌>>◌, pure, change_account}
use solenoid.Evm.{Evm}

-- Keccak-256 of no bytes, `hash::empty()`.
abbrev pub empty_hash : Word
empty_hash = 0xc5d2460186f7233c927e7db2dcc703c0e500b653ca82273b7bfad8045d85a470

-- A slot that was cold is cold again.
unfoldable pub cool_slot : Address → Word → Bool → Ext → Ext
cool_slot a k is_warm ext =
    if is_warm then ext else record ext { accessed_storage = del_pair a k ext.accessed_storage }

unfoldable pub undo : AccountTouch → Access Done
unfolding cool_slot
undo (AccountTouch.set_state a k val _ is_warm) ext =
    (ok tt, cool_slot a k is_warm (store_slot a k val ext))
undo (AccountTouch.set_transient_state a k val _) ext =
    (ok tt, record ext { transient = insert_pair a k val ext.transient })
undo (AccountTouch.get_state a k _ is_warm) ext = (ok tt, cool_slot a k is_warm ext)
undo (AccountTouch.set_nonce a val _) ext =
    change_account a (λ account. record account { nonce = val }) ext
undo (AccountTouch.set_value a val _) ext =
    change_account a (λ account. record account { value = val }) ext
undo (AccountTouch.create a _ _ _ _) ext =
    change_account a
      (λ account. record account { code = ([], empty_hash); nonce = zero_word; value = zero_word })
      ext
undo (AccountTouch.warm_up a) ext =
    (ok tt, record ext { accessed_addresses = del a ext.accessed_addresses })
undo _ ext = (ok tt, ext)

unfoldable pub undo_all : List AccountTouch → Access Done
undo_all [] = pure tt
undo_all (t ∷ rest) = do undo t; undo_all rest

unfoldable pub revert : Evm → Access Done
unfolding undo_all undo
revert evm = undo_all (reverse evm.touches)
