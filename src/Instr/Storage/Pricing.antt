-- ===== src/Instr/Storage/Pricing.antt =====
-- The price of SSTORE in src/executor.rs: gas and refund by the value of the slot before the
-- transaction (`original`), now (`val`) and after the write (`new`).
use solenoid.Base.{◌==◌, Bool, not, ◌&&◌, if◌then◌else◌}
use solenoid.Base.Int.{ℤ, pos, negsuc}
use solenoid.Base.I64.{add_i64}
use solenoid.Word.{Word, is_zero}

unfoldable pub sstore_cost : Word → Word → Word → Bool → ℤ
sstore_cost original val new is_warm =
    let gas_cost : ℤ =
      if val == new
      then pos 100
      else if val == original
      then (if is_zero original then pos 20000 else pos 2900)
      else pos 100 in
    if is_warm then gas_cost else add_i64 gas_cost (pos 2100)

-- The refund of a slot that the transaction changed before.
abbrev refund_dirty : Word → Word → Word → ℤ → ℤ
refund_dirty original val new gas_refund =
    if new == original
    then add_i64 gas_refund (if is_zero original then pos 19900 else pos 2800)
    else gas_refund

unfoldable pub sstore_refund : Word → Word → Word → ℤ
sstore_refund original val new =
    if new == val
    then pos 0
    else if val == original
    then (if not (is_zero original) && is_zero new then pos 4800 else pos 0)
    else refund_dirty original val new (
        if is_zero original
        then pos 0
        else if is_zero val
        then negsuc 4799
        else if is_zero new
        then pos 4800
        else pos 0)
