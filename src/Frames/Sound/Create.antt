-- ===== src/Frames/Sound/Create.antt =====
-- `create` of src/executor.rs keeps the stack within its limit and the memory whole.
use solenoid.Base.{ℕ, refl, arith}
use solenoid.Base.Int.{ℤ}
use solenoid.Primitives.{Primitives}
use solenoid.Types.{Address, CallType}
use solenoid.Machine.{modify_evm}
use solenoid.Machine.Keeps.{Keeps}
use solenoid.Instr.Frame.{Frame}
use solenoid.Frames.Inner.{Runner, Inner}
use solenoid.Frames.Create.{create_args, next_nonce, open_account, create_gas, create}
use solenoid.Frames.Create.Deploy.{Creation, use_gas, undo_creation, place_code, deploy}
use solenoid.Step.Sound.{IsSound, modify_evm-IsSound}
use solenoid.Frames.Sound.{frame_rules}
use solenoid.Frames.Sound.Call.{create_transfer-IsSound, take_refund-IsSound}

use_gas-IsSound : (cost : ℤ) → Keeps IsSound (modify_evm (use_gas cost))
use_gas-IsSound cost = modify_evm-IsSound _ (λ evm. refl) (λ evm. refl)

undo_creation-IsSound : (inner : Inner) → Keeps IsSound (undo_creation inner)
unfolding undo_creation
undo_creation-IsSound inner = search frame_rules depth 24

open_account-IsSound : (a : Address) → Keeps IsSound (open_account a)
unfolding open_account
open_account-IsSound a = search frame_rules depth 24

create_gas-IsSound : (base left : ℤ) → Keeps IsSound (create_gas base left)
unfolding create_gas
create_gas-IsSound base left = record { at = λ s h. ground arith }

module _ ⦃prim : Primitives⦄ where
  create_args-IsSound : (t : CallType) → Keeps IsSound (create_args t)
  unfolding create_args
  create_args-IsSound t = search frame_rules depth 24

  pub next_nonce-IsSound : (d : ℕ) (a : Address) → Keeps IsSound (next_nonce d a)
  unfolding next_nonce
  next_nonce-IsSound d a = search frame_rules depth 24

  place_code-IsSound : (f : Frame) (c : Creation) → Keeps IsSound (place_code f c)
  unfolding place_code
  place_code-IsSound f c =
      search (frame_rules, create_transfer-IsSound, take_refund-IsSound) depth 30

  deploy-IsSound : (f : Frame) (c : Creation) → Keeps IsSound (deploy f c)
  unfolding deploy
  deploy-IsSound f c =
      search (frame_rules, use_gas-IsSound, undo_creation-IsSound, place_code-IsSound) depth 30

  pub create-IsSound : (run : Runner) (f : Frame) → Keeps IsSound (create run f)
  unfolding create
  create-IsSound run f =
      search
        (
          frame_rules, create_args-IsSound, next_nonce-IsSound, open_account-IsSound,
          create_gas-IsSound, deploy-IsSound,
        )
        depth 40
