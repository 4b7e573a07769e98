-- ===== src/Builder/Apply/Charged.antt =====
-- The gas of a creation in `Runner::apply` of src/solenoid.rs.
use solenoid.Base.{
  ℕ, ◌*◌, ◌^◌, ◌<◌, ◌≡◌, refl, ◌⊎◌, inl, inr, true, false, Bool-cases, List, [], length, arith,
}
use solenoid.Base.Int.{ℤ, pos, ltb_ℤ, ◌≤ℤ◌, ◌+ℤ◌, ◌-ℤ◌, ◌*ℤ◌, int_laws}
use solenoid.Base.I64.{as_i64, mul_i64, add_i64, add_i64_exact, i64_max, wrap_i64}
use solenoid.Outcome.{Outcome, ok}
use solenoid.Gas
use solenoid.Gas.{Gas}
use solenoid.Gas.Bounds.{IsValid, finalized_bounds, remaining_exact}
use solenoid.Evm
use solenoid.Evm.{Evm}
use solenoid.Machine.{Machine}
use solenoid.Builder.Apply.Creation.{settle_creation}

abbrev pub deposit : List ℕ → ℤ
deposit ret = pos (200 * length ret)

deposit_lem :
    (ret : List ℕ)
    → 200 * length ret < 2 ^ 63
    → mul_i64 (pos 200) (as_i64 (length ret)) ≡ deposit ret
unfolding mul_i64 as_i64 wrap_i64 ◌*ℤ◌
deposit_lem ret h = ground arith

charge_reverted :
    (cost : ℤ) (evm : Evm) → evm.reverted ≡ true → (Evm.charge cost evm).1.reverted ≡ true
unfolding Evm.charge Evm.error Gas.charge
charge_reverted cost evm h = ground arith

-- What a creation is charged, in its three cases.
abbrev pub IsCharged : Outcome (ℤ × List ℕ) × Machine → ℤ → ℤ → List ℕ → Machine → Type 0
IsCharged result limit total ret s =
    ((s.evm.reverted ≡ true) × (result ≡ (ok (total, ret), s)))
    ⊎ ((s.evm.reverted ≡ false) × (result.0 ≡ ok (limit, [])) × (result.1.evm.reverted ≡ true))
    ⊎ ((s.evm.reverted ≡ false)
        × ((final : ℤ) × ((result ≡ (ok (final, ret), s))
              × (final ≤ℤ limit)
              × (pos 4 *ℤ total ≤ℤ pos 5 *ℤ final))))

module _ (upfront : ℤ) (ret : List ℕ) (s : Machine) where
  open s.evm use {gas}

  pub settle_creation-IsCharged :
      IsValid gas
      → pos 0 ≤ℤ gas.refunded
      → pos 0 ≤ℤ upfront
      → 200 * length ret < 2 ^ 63
      → (gas.limit +ℤ upfront) +ℤ deposit ret ≤ℤ i64_max
      → IsCharged
          (settle_creation (gas.limit +ℤ upfront) upfront ret s)
          (gas.limit +ℤ upfront)
          (gas.used +ℤ (upfront +ℤ deposit ret))
          ret
          s
  unfolding settle_creation
  settle_creation-IsCharged valid refunded paid short room =
      let cost = deposit_lem ret short in
      let sum : add_i64 upfront (deposit ret) ≡ upfront +ℤ deposit ret =
        add_i64_exact upfront (deposit ret)
          (omega (int_laws, valid.nonneg, valid.within, room, paid)) in
      let bounds =
        finalized_bounds gas (upfront +ℤ deposit ret) valid (omega (int_laws, paid)) refunded
          (omega (int_laws, valid.within, room)) in
      let exact = remaining_exact gas valid in
      elim (Bool-cases s.evm.reverted) [
        | inl is_reverted ↦
            inl (is_reverted, rw (settle_creation, is_reverted, cost, sum, bounds.0) refl)
        | inr runs ↦ elim (Bool-cases (ltb_ℤ (Gas.remaining gas) (deposit ret))) [
          | inl out ↦ inr (
              inl (
                runs,
                rw (settle_creation, runs, cost, out) refl,
                rw (settle_creation, runs, cost, out)
                    (charge_reverted (gas.limit +ℤ upfront) (record s.evm { reverted = true })
                      refl),
              ))
          | inr covered ↦
              let enough : deposit ret ≤ℤ Gas.remaining gas = ground (arith, covered) in
              let within : deposit ret ≤ℤ gas.limit -ℤ gas.used = rw exact at enough in
              inr (
                inr (
                  runs,
                  (
                    Gas.finalized gas (upfront +ℤ deposit ret) false,
                    (
                      rw (settle_creation, runs, cost, covered, sum) refl,
                      omega (int_laws, bounds.1, within),
                      bounds.2,
                    ),
                  ),
                ))
        ]
      ]
