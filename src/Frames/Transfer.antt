-- ===== src/Frames/Transfer.antt =====
-- The transfer of value by `call` and `create` of src/executor.rs.
pub mod Moves
use solenoid.Base.{ℕ, Bool, true, false, not, ◌==◌, ◌||◌, ◌&&◌, leb, if◌then◌else◌}
use solenoid.Primitives.{Primitives}
use solenoid.Outcome.{Done}
use solenoid.Word.{Word, is_zero}
use solenoid.Types.{Address, CallType, AccountTouch, is_static}
use solenoid.Event.{EventData, AccountEvent, event}
use solenoid.Ext.{balance}
use solenoid.Ext.Slot.{change_account}
use solenoid.Machine.{Action, ◌>>=◌, ◌>>◌, pure, unwrap, on_ext, touch, trace}

abbrev pub is_delegate : CallType → Bool
is_delegate CallType.delegate = true
is_delegate _ = false

-- Whether a frame of this type moves the value of its call.
abbrev pub moves_value : CallType → Word → Bool
moves_value t value = not (is_zero value) && not (is_static t || is_delegate t)

-- `account_mut(a).value = new`, its touch and its event.
unfoldable pub set_balance : ℕ → Address → Word → Word → Action Done
set_balance depth a old new = do
  on_ext (change_account a (λ account. record account { value = new }))
  touch (AccountTouch.set_value a old new)
  trace (event (EventData.account (AccountEvent.set_value a old new)) depth false)

module _ ⦃prim : Primitives⦄ where
  -- The two balances were read before.
  unfoldable pub move_value : ℕ → Address → Address → Word → Word → Word → Action Done
  unfolding set_balance
  move_value depth source target funds held value = do
    left ← unwrap (prim.u256_sub funds value)
    set_balance depth source funds left
    sum ← unwrap (prim.u256_add held value)
    set_balance depth target held sum

  -- Without the funds for it nothing moves, nor for a call of the account itself.
  unfoldable pub call_transfer : CallType → ℕ → Address → Address → Word → Action Done
  unfolding move_value
  call_transfer t depth this address value = do
    funds ← on_ext (balance this)
    held ← on_ext (balance address)
    (if moves_value t value && leb value funds && not (this == address)
        then move_value depth this address funds held value
        else pure tt)

  unfoldable pub create_transfer : CallType → ℕ → Address → Address → Word → Action Done
  unfolding move_value
  create_transfer t depth this created value = do
    funds ← on_ext (balance this)
    held ← on_ext (balance created)
    (if moves_value t value && leb value funds
        then move_value depth this created funds held value
        else pure tt)
