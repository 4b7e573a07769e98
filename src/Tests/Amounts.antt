-- ===== src/Tests/Amounts.antt =====
-- Tests of the gas accounting, of the prices and of the journal.

use solenoid.Base.{◌*◌, ◌≡◌, ◌≢◌, ◌⊎◌, refl, arith, true, false, none, List, [], ◌∷◌, length}
use solenoid.Base.Int.{pos, ◌+ℤ◌, ◌*ℤ◌, ◌≤ℤ◌}
use solenoid.Outcome.{ok, err, executor, out_of_gas}
use solenoid.Gas.{Gas, remaining, charge, finalized}
use solenoid.Gas.Bounds.{IsValid, charge-IsValid, finalized_bounds}
use solenoid.Instr.Block.{fake_exponential, update_fraction}
use solenoid.Instr.Block.Exponential.{fake_exponential_total}
use solenoid.Instr.Storage.Net.{total_net, potential, last_value, total_net-potential}
use solenoid.Primitives.Native.{native}
use solenoid.Word.{Word}
use solenoid.Types.{AccountTouch}
use solenoid.Gas
use solenoid.Evm
use solenoid.Evm.{Evm}
use solenoid.Ext.{Ext, is_storage_warm, pull, warm_storage}
use solenoid.Ext.Slot.{get, put, read_slot}
use solenoid.Ext.Slot.Stored.{IsWritten, put-IsWritten}
use solenoid.Evm.Revert.{revert}
use solenoid.Evm.Revert.Slots.{accessed}
use solenoid.Evm.Revert.Observed.{observed, outcome}
use solenoid.Evm.Revert.Journal.{Journal, start, write, read, revert-Journal}
use solenoid.Tests.Data.{world, contract}

abbrev spent : Gas
spent = record { limit = pos 100; used = pos 60; refunded = pos 30 }

spent-IsValid : IsValid spent
spent-IsValid = record { nonneg = omega arith; within = omega arith; small = omega arith }

charge-IsValid_example :
    IsValid (charge spent (pos 50)).1
    × (((charge spent (pos 50)).0 ≡ ok tt)
          × (remaining (charge spent (pos 50)).1 +ℤ pos 50 ≡ remaining spent)
        ⊎ ((charge spent (pos 50)).0 ≡ err (executor out_of_gas))
          × (remaining (charge spent (pos 50)).1 ≡ pos 0))
charge-IsValid_example = charge-IsValid spent (pos 50) spent-IsValid (omega arith)

finalized_bounds_example :
    (finalized spent (pos 40) true ≡ pos 60 +ℤ pos 40)
    × (finalized spent (pos 40) false ≤ℤ pos 60 +ℤ pos 40)
    × (pos 4 *ℤ (pos 60 +ℤ pos 40) ≤ℤ pos 5 *ℤ finalized spent (pos 40) false)
unfolding ◌+ℤ◌
finalized_bounds_example =
    finalized_bounds spent (pos 40) spent-IsValid (omega arith) (omega arith) (omega arith)

fake_exponential_total_example : fake_exponential 10000000 update_fraction ≢ none
fake_exponential_total_example =
    fake_exponential_total 10000000 update_fraction (omega arith) (omega arith) (omega arith)

-- A slot that held 9 is cleared, set and restored.
total_net-potential_example :
    total_net 9 9 (0 ∷ 5 ∷ 9 ∷ []) +ℤ potential 9 9
    ≡ pos (100 * length {A = Word} (0 ∷ 5 ∷ 9 ∷ [])) +ℤ potential 9 (last_value 9 (0 ∷ 5 ∷ 9 ∷ []))
total_net-potential_example = total_net-potential 9 9 (0 ∷ 5 ∷ 9 ∷ [])

-- Slot 3 is read, which warms it up, and then written.
abbrev after_read : Ext
after_read = (get 0xcc 3 (accessed 0xcc 3 world)).1

abbrev after_write : Ext
after_write = (put 0xcc 3 5 (get 0xcc 3 (accessed 0xcc 3 after_read)).1).1

read_first :
    Journal world (AccountTouch.get_state 0xcc 3 9 (is_storage_warm 0xcc 3 world) ∷ []) after_read
read_first = read 0xcc 3 9 contract start refl refl

abbrev frame_of : List AccountTouch → Evm
frame_of ts = record (Evm.new (Gas.new (pos 100000))) { touches = ts }

abbrev touches : List AccountTouch
touches =
    AccountTouch.get_state 0xcc 3 9 (is_storage_warm 0xcc 3 world)
    ∷ AccountTouch.set_state 0xcc 3 9 5 (is_storage_warm 0xcc 3 after_read)
    ∷ []

written : Journal world touches after_write
unfolding get pull read_slot accessed warm_storage
written = write 0xcc 3 9 5 contract read_first refl refl

revert-Journal_example : outcome (revert (frame_of touches) after_write) ≡ (ok tt, observed world)
revert-Journal_example = revert-Journal (frame_of touches) written

put-IsWritten_example : IsWritten 0xcc 3 5 world
put-IsWritten_example = put-IsWritten 0xcc 3 5 world
