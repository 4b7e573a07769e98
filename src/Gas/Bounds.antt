-- ===== src/Gas/Bounds.antt =====
-- Charging keeps the gas within its limit, and then no `i64` operation of it overflows.
use solenoid.Base.{◌≡◌, refl, ◌∙◌, ◌⊎◌, inl, inr, arith, false, true, Bool-cases}
use solenoid.Base.Int.{
  ℤ, pos, negsuc, ◌+ℤ◌, ◌-ℤ◌, ◌*ℤ◌, ◌≤ℤ◌, ◌<ℤ◌, ltb_ℤ, min_ℤ, +ℤ_parts, -ℤ_parts, int_laws,
}
use solenoid.Base.I64.{i64_max, add_i64_exact, sub_i64_exact, div_i64}
use solenoid.Outcome.{ok, err, executor, out_of_gas}
use solenoid.Gas.{Gas, remaining, charge, finalized, saturating_sub}

pub record IsValid (g : Gas) : Type 0 where
  pub nonneg : pos 0 ≤ℤ g.used
  pub within : g.used ≤ℤ g.limit
  pub small : g.limit ≤ℤ i64_max

pub remaining_exact : (g : Gas) → IsValid g → remaining g ≡ g.limit -ℤ g.used
unfolding remaining
remaining_exact g v =
    sub_i64_exact g.limit g.used
      (omega (arith, -ℤ_parts g.limit g.used, v.nonneg, v.within, v.small))

-- A cost that the remaining gas covers is charged exactly.
pub charge_ok :
    (g : Gas) (cost : ℤ)
    → IsValid g
    → pos 0 ≤ℤ cost
    → cost ≤ℤ remaining g
    → charge g cost ≡ (ok tt, record g { used = g.used +ℤ cost })
unfolding charge
charge_ok g cost v p c =
    let exact = remaining_exact g v in
    let parts = -ℤ_parts g.limit g.used in
    let sums = +ℤ_parts g.used cost in
    let short : ltb_ℤ (remaining g) cost ≡ false = ground arith in
    let covered : cost ≤ℤ g.limit -ℤ g.used = rw exact at c in
    rw (short, add_i64_exact g.used cost (omega (arith, v.nonneg, v.within, v.small)))

-- Any other cost uses up the gas.
pub charge_out :
    (g : Gas) (cost : ℤ)
    → IsValid g
    → remaining g <ℤ cost
    → charge g cost ≡ (err (executor out_of_gas), record g { used = g.limit })
unfolding charge
charge_out g cost v c =
    let exact = remaining_exact g v in
    let parts = -ℤ_parts g.limit g.used in
    let out : ltb_ℤ (remaining g) cost ≡ true = ground arith in
    let least : min_ℤ cost (remaining g) ≡ remaining g = ground arith in
    let whole : g.used +ℤ (g.limit -ℤ g.used) ≡ g.limit = omega int_laws in
    rw (
      out,
      least,
      exact,
      add_i64_exact g.used (g.limit -ℤ g.used)
          (rw whole (omega (arith, v.nonneg, v.within, v.small))),
      whole,
    )

-- Charging a cost of 0 or more keeps valid gas within its limit, whether or not the gas suffices; a
-- charge that succeeds leaves exactly the difference, and one that fails leaves nothing.
pub charge-IsValid :
    (g : Gas) (cost : ℤ)
    → IsValid g
    → pos 0 ≤ℤ cost
    → IsValid (charge g cost).1
      × (((charge g cost).0 ≡ ok tt) × (remaining (charge g cost).1 +ℤ cost ≡ remaining g)
          ⊎ ((charge g cost).0 ≡ err (executor out_of_gas)) × (remaining (charge g cost).1 ≡ pos 0))
charge-IsValid g cost v p = elim (Bool-cases (ltb_ℤ (remaining g) cost)) [
  | inl out ↦
      let valid : IsValid (record g { used = g.limit }) =
        omega (arith, v.nonneg, v.within, v.small) in
      let none_left : remaining (record g { used = g.limit }) ≡ pos 0 =
        remaining_exact (record g { used = g.limit }) valid
        ∙ omega (int_laws, -ℤ_parts g.limit g.limit) in
      rw (charge_out g cost v (ground arith)) (valid, inr (refl, none_left))
  | inr covered ↦
      let c : cost ≤ℤ remaining g = ground arith in
      let g' : Gas = record g { used = g.used +ℤ cost } in
      let exact = remaining_exact g v in
      let c' : cost ≤ℤ g.limit -ℤ g.used = rw exact at c in
      let valid : IsValid g' = omega (int_laws, v.nonneg, v.within, v.small) in
      let left : remaining g' +ℤ cost ≡ remaining g =
        rw (remaining_exact g' valid, exact) (omega int_laws) in
      rw (charge_ok g cost v p c) (valid, inl (refl, left))
]

abbrev after_refund : ℤ → ℤ → ℤ
after_refund total refunded = saturating_sub total (min_ℤ refunded (div_i64 total 5))

after_refund_bounds :
    (total refunded : ℤ)
    → pos 0 ≤ℤ total
    → pos 0 ≤ℤ refunded
    → total ≤ℤ i64_max
    → (after_refund total refunded ≤ℤ total)
      × (pos 4 *ℤ total ≤ℤ pos 5 *ℤ after_refund total refunded)
unfolding div_i64 ◌-ℤ◌ ◌*ℤ◌
after_refund_bounds (pos n) (pos m) p r top = ground arith
after_refund_bounds (pos n) (negsuc m) p r top = absurd (omega arith)
after_refund_bounds (negsuc n) r p q top = absurd (omega arith)

-- What a transaction pays for, when what it used and the cost of the call, both 0 or more, fit an
-- `i64` together and its refund counter is 0 or more: all of it when it reverted, and otherwise at
-- most a fifth less.
pub finalized_bounds :
    (g : Gas) (call_cost : ℤ)
    → IsValid g
    → pos 0 ≤ℤ call_cost
    → pos 0 ≤ℤ g.refunded
    → g.used +ℤ call_cost ≤ℤ i64_max
    → (finalized g call_cost true ≡ g.used +ℤ call_cost)
      × (finalized g call_cost false ≤ℤ g.used +ℤ call_cost)
      × (pos 4 *ℤ (g.used +ℤ call_cost) ≤ℤ pos 5 *ℤ finalized g call_cost false)
unfolding finalized
finalized_bounds g call_cost v p r top =
    let total : ℤ = g.used +ℤ call_cost in
    let nonneg : pos 0 ≤ℤ total = omega (arith, +ℤ_parts g.used call_cost, v.nonneg) in
    let bounds = after_refund_bounds total g.refunded nonneg r top in
    rw (add_i64_exact g.used call_cost (omega (arith, nonneg))) (refl, bounds.0, bounds.1)
