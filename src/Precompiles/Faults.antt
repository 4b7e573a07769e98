-- ===== src/Precompiles/Faults.antt =====
-- Where src/precompiles.rs does not do what its comments say, or panics.
use solenoid.Base.{ℕ, ◌≤◌, ◌≡◌, refl, true, false, List, length, ltb, arith}
use solenoid.Base.Int.{negsuc}
use solenoid.Base.I64.{as_i64}
use solenoid.Primitives.{Primitives}
use solenoid.Outcome.{err, precompile_failed}
use solenoid.Precompiles.{execute, gas_cost}
use solenoid.Precompiles.Interface.{Crates}
use solenoid.Precompiles.Modexp.{is_oversized, modexp, modexp_gas_cost}

module _ ⦃prim : Primitives⦄ ⦃crates : Crates⦄ where
  -- MODEXP with a number longer than 1024 bytes fails, and its price is -1.
  pub oversized_price :
      (input : List ℕ)
      → 96 ≤ length input
      → is_oversized input ≡ true
      → (execute 5 input ≡ err precompile_failed) × (gas_cost 5 input ≡ negsuc 0)
  unfolding execute gas_cost modexp modexp_gas_cost as_i64
  oversized_price input h big =
      let long : ltb (length input) 96 ≡ false = ground arith in
      (rw (modexp, long, big) refl, rw (modexp_gas_cost, long, big) refl)
