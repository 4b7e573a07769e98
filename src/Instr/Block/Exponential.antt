-- ===== src/Instr/Block/Exponential.antt =====
-- `fake_exponential` of evm-common/src/block.rs ends: from some round on, its numerator halves.
use mathlib.Core.Option
use solenoid.Base.{
  ℕ, zero, suc, ◌+◌, ◌*◌, ◌/◌, ◌%◌, ◌^◌, ◌≤◌, ◌<◌, ◌≡◌, ◌≢◌, refl, Bool-cases, inl, inr, Option,
  none, some, arith, ltb,
}
use native.Mathlib.Nat.{
  pow-suc, le_of_mul-le-mul_right, mul-le-mul_left, div-mul-le_self, mul_assoc, mul_left_comm,
  mul-add, mul-pos, div-le_self, lt-mul-div-succ,
}
use solenoid.Instr.Block.{
  two128, saturating_mul, exponential_loop, exponential_fuel, fake_exponential,
}

-- A quotient by twice as much, or more, is at most half.
halves : (n f d : ℕ) → 2 * f ≤ d → 0 < d → 2 * (saturating_mul n f / d) ≤ n
halves n f d h p =
    let q = saturating_mul n f / d in
    le_of_mul-le-mul_right {m = 2 * q} {n = n} {k = d}
      (omega (
        arith,
        div-mul-le_self (saturating_mul n f) d,
        mul-le-mul_left n h,
        mul_assoc 2 q d,
        mul_left_comm n 2 f,
      ))
      p

grow : (d i : ℕ) → saturating_mul d i ≤ saturating_mul d (i + 1)
grow d i = omega (arith, mul-add d i 1)

next_round :
    (fuel factor denominator output numerator i : ℕ)
    → exponential_loop fuel factor denominator
        ((output + numerator) % two128)
        (saturating_mul numerator factor / saturating_mul denominator i)
        ((i + 1) % two128)
      ≢ none
    → exponential_loop (suc fuel) factor denominator output numerator i ≢ none
unfolding exponential_loop
next_round fuel factor denominator output numerator i rest = elim (Bool-cases (ltb 0 numerator)) [
  | inl more ↦ rw more rest
  | inr done ↦ rw done (λ e. cc)
]

map_some : {A B : Type 0} (f : A → B) (o : Option A) → o ≢ none → Option.map f o ≢ none
map_some f none h e = h refl
map_some f (some a) h e = cc

-- The rounds that are left when the denominators are large: each bit of the numerator takes one.
late :
    (k fuel factor denominator output numerator i : ℕ)
    → numerator < 2 ^ k
    → k < fuel
    → 2 * factor ≤ saturating_mul denominator i
    → 0 < saturating_mul denominator i
    → i + k < two128
    → exponential_loop fuel factor denominator output numerator i ≢ none
unfolding exponential_loop
late k zero factor denominator output numerator i small enough large p room = absurd (omega arith)
late zero (suc fuel) factor denominator output numerator i small enough large p room =
    λ e. ground arith
late (suc k) (suc fuel) factor denominator output numerator i small enough large p room =
    let numerator' = saturating_mul numerator factor / saturating_mul denominator i in
    let i' = (i + 1) % two128 in
    let step : i' ≡ i + 1 = omega arith in
    let grows = grow denominator i in
    let smaller : numerator' < 2 ^ k =
      omega (arith, halves numerator factor (saturating_mul denominator i) large p, pow-suc 2 k) in
    let rest =
      late k fuel factor denominator ((output + numerator) % two128) numerator' i' smaller
        (omega arith) (rw step (omega (arith, grows))) (rw step (omega (arith, grows)))
        (omega arith) in
    next_round fuel factor denominator output numerator i rest

-- The rounds before, while the denominators are small: `j` of them reach a large one.
early :
    (j fuel factor denominator output numerator i : ℕ)
    → numerator < two128
    → 129 + j ≤ fuel
    → 0 < denominator
    → 0 < i
    → factor < 2 ^ 64
    → 2 * factor ≤ denominator * (i + j)
    → i + j + 128 < two128
    → exponential_loop fuel factor denominator output numerator i ≢ none
early zero fuel factor denominator output numerator i small enough p start bound large room =
    let product : 0 < denominator * i = mul-pos p start in
    let here : i + 0 ≡ i = omega arith in
    let large' : 2 * factor ≤ denominator * i = rw here at large in
    late 128 fuel factor denominator output numerator i small (omega arith) (omega arith)
      (omega arith) (omega arith)
early (suc j) zero factor denominator output numerator i small enough p start bound large room =
    absurd (omega arith)
early (suc j) (suc fuel) factor denominator output numerator i small enough p start bound large
      room =
    let i' = (i + 1) % two128 in
    let step : i' ≡ i + 1 = omega arith in
    let further : i' + j ≡ i + suc j = omega arith in
    let rest =
      early j fuel factor denominator ((output + numerator) % two128)
        (saturating_mul numerator factor / saturating_mul denominator i) i'
        (omega
          (arith, div-le_self (saturating_mul numerator factor) (saturating_mul denominator i)))
        (omega arith) p (omega arith) bound (rw further large) (omega arith) in
    next_round fuel factor denominator output numerator i rest

-- For a denominator of 128 bits that is not 0 and a factor of 64 bits, the loop ends within the fuel.
pub fake_exponential_total :
    (factor denominator : ℕ)
    → factor < 2 ^ 64
    → 0 < denominator
    → denominator < two128
    → fake_exponential factor denominator ≢ none
unfolding fake_exponential
fake_exponential_total factor denominator bound p small =
    let q = factor / denominator in
    let large : 2 * factor ≤ denominator * (1 + (2 * q + 3)) = omega (
      arith,
      lt-mul-div-succ factor p,
      mul-add denominator q 1,
      mul-add denominator 1 (2 * q + 3),
      mul-add denominator (2 * q) 3,
      mul_left_comm denominator 2 q,
    ) in
    map_some (λ output. output / denominator) _
      (early (2 * q + 3) (exponential_fuel factor denominator) factor denominator 0 denominator 1
        small (omega arith) p (omega arith) bound large
        (omega (arith, div-le_self factor denominator)))
