-- ===== src/Gas.antt =====
-- `Gas` of src/executor.rs: the gas limit of a frame, what it has used, and its refund counter.
pub mod Bounds
use solenoid.Base.{Bool, ◌-◌, ◌^◌, if◌then◌else◌}
use solenoid.Base.Int.{ℤ, pos, negsuc, ◌-ℤ◌, ltb_ℤ, leb_ℤ, min_ℤ, max_ℤ}
use solenoid.Base.I64.{i64_min, i64_max, add_i64, sub_i64, div_i64}
use solenoid.Outcome.{Outcome, Done, ok, err, executor, out_of_gas}

pub record Gas : Type 0 where
  pub limit : ℤ
  pub used : ℤ
  pub refunded : ℤ

abbrev pub new : ℤ → Gas
new limit = record { limit = limit; used = pos 0; refunded = pos 0 }

unfoldable pub remaining : Gas → ℤ
remaining g = sub_i64 g.limit g.used

abbrev saturating_sub : ℤ → ℤ → ℤ
saturating_sub a b = max_ℤ i64_min (min_ℤ i64_max (a -ℤ b))

-- The gas that a transaction pays for: at most a fifth is refunded.
unfoldable pub finalized : Gas → ℤ → Bool → ℤ
finalized g call_cost reverted =
    let used = add_i64 g.used call_cost in
    if reverted then used else saturating_sub used (min_ℤ g.refunded (div_i64 used 5))

abbrev pub fork : Gas → ℤ → Gas
fork g limit = new limit

unfoldable pub refund : Gas → ℤ → Gas
refund g gas = record g { refunded = add_i64 g.refunded gas }

-- `sub`: charges the cost; without the gas for it, all that remains is used up.
unfoldable pub charge : Gas → ℤ → Outcome Done × Gas
unfolding remaining
charge g gas =
    if ltb_ℤ (remaining g) gas
    then (err (executor out_of_gas), record g { used = add_i64 g.used (min_ℤ gas (remaining g)) })
    else (ok tt, record g { used = add_i64 g.used gas })
