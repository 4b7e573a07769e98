-- ===== src/Step/Progress/Exp.antt =====
-- EXP asks for a charge of more than 0.
use solenoid.Base.{ℕ, ◌≤◌, ◌≡◌, ap, ◌∙◌, List, [], ◌∷◌, length, arith}
use solenoid.Base.Int.{pos, ◌+ℤ◌, ◌*ℤ◌}
use solenoid.Base.I64.{add_i64, mul_i64, as_i64, wrap_i64}
use solenoid.Primitives.{Primitives}
use solenoid.Primitives.Bytes.{length-be_bytes}
use solenoid.Word.{Word, into_bytes}
use solenoid.Instr.Arith
use solenoid.Instr.Arith.{significant, exp_cost}
use solenoid.Step.Progress.{AsksGas, IsPositive, progress_rules}

significant_bound : (bytes : List ℕ) → significant bytes ≤ length bytes
unfolding significant
significant_bound [] = omega arith
significant_bound (b ∷ bytes) = ground (arith, significant_bound bytes)

cost_bound : (n : ℕ) → n ≤ 32 → IsPositive (add_i64 (pos 10) (mul_i64 (as_i64 n) (pos 50)))
unfolding add_i64 mul_i64 as_i64 wrap_i64 ◌+ℤ◌ ◌*ℤ◌
cost_bound n h = ground arith

module _ ⦃prim : Primitives⦄ where
  exp_cost-IsPositive : (e : Word) → IsPositive (exp_cost e)
  exp_cost-IsPositive e =
      let size : length (into_bytes e) ≡ 32 =
        ap length (prim.u256_to_big_endian_law e) ∙ length-be_bytes 32 e in
      cost_bound (significant (into_bytes e))
        (omega (arith, significant_bound (into_bytes e), size))

  pub exp-AsksGas : AsksGas Arith.exp
  unfolding Arith.exp
  exp-AsksGas = search (progress_rules, exp_cost-IsPositive) depth 24
