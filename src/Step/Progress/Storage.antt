-- ===== src/Step/Progress/Storage.antt =====
-- Opcodes 0x54, 0x55, 0x5c and 0x5d, the storage, ask for a charge of more than 0.
use solenoid.Base.{◌≡◌, refl, Bool, true, false, arith}
use solenoid.Base.Int.{ℤ, ◌+ℤ◌}
use solenoid.Base.I64.{add_i64, wrap_i64}
use solenoid.Primitives.{Primitives}
use solenoid.Outcome.{Outcome, ok, err, panic, unfinished}
use solenoid.Word.{Word}
use solenoid.Types.{Address}
use solenoid.Gas
use solenoid.Ext.{Ext, Access}
use solenoid.Evm.{error}
use solenoid.Machine.{Machine, on_evm, modify_evm, modify_ext}
use solenoid.Instr.Frame.{Frame}
use solenoid.Instr.Storage
use solenoid.Instr.Storage.Pricing.{sstore_cost}
use solenoid.Step.Progress.{AsksGas, Ended, Ends, IsPositive, Kept, KeepsGas}
use solenoid.Step.Progress.World.{world_rules}

or_halt_at :
    {A : Type 0} (s : Machine) (r : Outcome A × Ext)
    → Ended r.0
    → Kept s (Storage.or_halt (λ _. r) s)
unfolding Storage.or_halt on_evm error
or_halt_at s (ok a, t) h = record { limit = refl; used = refl }
or_halt_at s (err e, t) h = tt
or_halt_at s (panic, t) h = tt
or_halt_at s (unfinished, t) h = h

or_halt-KeepsGas : {A : Type 0} (m : Access A) → Ends m → KeepsGas (Storage.or_halt m)
unfolding Storage.or_halt
or_halt-KeepsGas m h = record { at = λ s. or_halt_at s (m s.ext) (h.at s.ext) }

access_slot_at :
    (b : Bool) (a : Address) (k : Word) (s : Machine)
    → s.ext.accessed_storage a k ≡ b
    → Kept s (Storage.access_slot a k s)
unfolding Storage.access_slot modify_ext
access_slot_at true a k s e = rw (Storage.access_slot, e) (record { limit = refl; used = refl })
access_slot_at false a k s e = rw (Storage.access_slot, e) (record { limit = refl; used = refl })

access_slot-KeepsGas : (a : Address) (k : Word) → KeepsGas (Storage.access_slot a k)
access_slot-KeepsGas a k = record {
  at = λ s. access_slot_at (s.ext.accessed_storage a k) a k s refl;
}

-- The refund counter is no part of what is left.
refund-KeepsGas : (z : ℤ) → KeepsGas (modify_evm (λ evm. record evm { gas = Gas.refund evm.gas z }))
unfolding modify_evm Gas.refund
refund-KeepsGas z = record { at = λ s. record { limit = refl; used = refl } }

sstore_cost-IsPositive :
    (original val new : Word) (warm : Bool) → IsPositive (sstore_cost original val new warm)
unfolding sstore_cost add_i64 wrap_i64 ◌+ℤ◌
sstore_cost-IsPositive original val new warm = ground arith

ruleset storage_rules =
    (world_rules, or_halt-KeepsGas, access_slot-KeepsGas, refund-KeepsGas, sstore_cost-IsPositive)

module _ ⦃prim : Primitives⦄ (f : Frame) where
  pub sload-AsksGas : AsksGas (Storage.sload f)
  unfolding Storage.sload
  sload-AsksGas = search storage_rules depth 30

  sstore_write-AsksGas :
      (key new val original : Word) (warm : Bool)
      → AsksGas (Storage.sstore_write f key new val original warm)
  unfolding Storage.sstore_write
  sstore_write-AsksGas key new val original warm = search storage_rules depth 30

  pub sstore-AsksGas : AsksGas (Storage.sstore f)
  unfolding Storage.sstore
  sstore-AsksGas = search (storage_rules, sstore_write-AsksGas) depth 30

  pub tload-AsksGas : AsksGas (Storage.tload f)
  unfolding Storage.tload
  tload-AsksGas = search storage_rules depth 30

  pub tstore-AsksGas : AsksGas (Storage.tstore f)
  unfolding Storage.tstore
  tstore-AsksGas = search storage_rules depth 30
