-- ===== src/Frames/Forwarding.antt =====
-- The gas that `call` and `create` of src/executor.rs forward.
use solenoid.Base.{ℕ, ◌-◌, ◌/◌, ◌^◌, ◌<◌, ◌≡◌, min, arith, leb, if◌then◌else◌}
use solenoid.Base.Int.{pos, ◌-ℤ◌}
use solenoid.Base.I64.{sub_i64, div_i64, wrap_i64}
use solenoid.Outcome.{ok, panic}
use solenoid.Machine.{Machine}
use solenoid.Frames.Call.{forwarded}
use solenoid.Frames.Create.{create_gas}

-- Of the gas that is left, CALL forwards what is asked for, but at most all of it but a 64th,
-- the 64th rounded down.
pub forwarded_lem :
    (asked left : ℕ)
    → left < 2 ^ 63
    → forwarded (pos asked) (pos left) ≡ pos (min asked (left - left / 64))
unfolding forwarded sub_i64 div_i64 wrap_i64 ◌-ℤ◌
forwarded_lem asked left h = ground arith

-- CREATE forwards all but a 64th of the gas that remains behind its base cost, and panics when
-- nothing remains.
pub create_gas_lem :
    (base left : ℕ) (s : Machine)
    → base < 2 ^ 63
    → left < 2 ^ 63
    → create_gas (pos base) (pos left) s
      ≡ (if leb left base then (panic, s) else (ok (pos (left - base - (left - base) / 64)), s))
unfolding create_gas sub_i64 div_i64 wrap_i64 ◌-ℤ◌
create_gas_lem base left s hb hl = ground arith
