-- ===== src/Step/Sound/Storage.antt =====
-- Opcodes 0x54, 0x55, 0x5c and 0x5d keep the stack within its limit and the memory whole.
use solenoid.Base.{refl, Bool, arith}
use solenoid.Primitives.{Primitives}
use solenoid.Word.{Word}
use solenoid.Types.{Address}
use solenoid.Gas
use solenoid.Machine.{modify_evm}
use solenoid.Base.Int.{ℤ}
use solenoid.Machine.Keeps.{Keeps}
use solenoid.Instr.Frame.{Frame}
use solenoid.Instr.Storage
use solenoid.Step.Sound.{IsSound, sound_rules, modify_evm-IsSound}

access_slot-IsSound : (a : Address) (k : Word) → Keeps IsSound (Storage.access_slot a k)
unfolding Storage.access_slot
access_slot-IsSound a k = record { at = λ s h. ground arith }

add_refund-IsSound :
    (refund : ℤ)
    → Keeps IsSound (modify_evm (λ evm. record evm { gas = Gas.refund evm.gas refund }))
add_refund-IsSound refund = modify_evm-IsSound _ (λ evm. refl) (λ evm. refl)

module _ ⦃prim : Primitives⦄ (f : Frame) where
  sstore_write-IsSound :
      (key new val original : Word) (is_warm : Bool)
      → Keeps IsSound (Storage.sstore_write f key new val original is_warm)
  unfolding Storage.sstore_write
  sstore_write-IsSound key new val original is_warm =
      search (sound_rules, add_refund-IsSound) depth 24

  pub sload-IsSound : Keeps IsSound (Storage.sload f)
  unfolding Storage.sload
  sload-IsSound = search (sound_rules, access_slot-IsSound) depth 24

  pub sstore-IsSound : Keeps IsSound (Storage.sstore f)
  unfolding Storage.sstore
  sstore-IsSound = search (sound_rules, access_slot-IsSound, sstore_write-IsSound) depth 24

  pub tload-IsSound : Keeps IsSound (Storage.tload f)
  unfolding Storage.tload
  tload-IsSound = search sound_rules depth 24

  pub tstore-IsSound : Keeps IsSound (Storage.tstore f)
  unfolding Storage.tstore
  tstore-IsSound = search sound_rules depth 24
