-- ===== src/Frames/Warm.antt =====
-- `if ext.warm_address(a) { evm.touches.push(AccountTouch::WarmUp(a)); }` of src/executor.rs.
use solenoid.Base.{if◌then◌else◌}
use solenoid.Outcome.{Done}
use solenoid.Types.{Address, AccountTouch}
use solenoid.Ext.{warm_address}
use solenoid.Machine.{Action, ◌>>=◌, ◌>>◌, pure, gets, modify_ext, touch}

unfoldable pub warm_up : Address → Action Done
unfolding modify_ext touch
warm_up a = do
  is_new ← gets (λ s. (warm_address a s.ext).0)
  modify_ext (λ ext. (warm_address a ext).1)
  (if is_new then touch (AccountTouch.warm_up a) else pure tt)
