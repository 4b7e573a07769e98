-- ===== src/RpcProxy/Retry/Delays.antt =====
-- The delays of `retry` of rpc-proxy/src/retry.rs.
use solenoid.Base.{
  ℕ, zero, suc, ◌+◌, ◌*◌, ◌%◌, ◌^◌, ◌≤◌, ◌<◌, ◌≡◌, refl, sym, ap, ◌∙◌, ◌⊎◌, inl, inr, Bool,
  Bool-cases, List, [], ◌∷◌, leb, min, arith,
}
use native.Mathlib.Nat.{suc-mul, pow-suc, mul_assoc}
use solenoid.Base.I64.{two64}
use solenoid.RpcProxy.Retry.{RetryConfig, Answer, next_delay, retry_loop, retry}

-- Every number of the list is below the bound.
abbrev pub AreBelow : ℕ → List ℕ → Type 0
AreBelow bound [] = Unit {0}
AreBelow bound (d ∷ delays) = (d < bound) × AreBelow bound delays

-- Before the call number `attempt`: the limit is reached, or the delay has kept up with the
-- doubling.
abbrev KeepsUp : RetryConfig → ℕ → ℕ → Type 0
KeepsUp config attempt delay =
    (config.max_delay_ms ≤ delay) ⊎ (config.initial_delay_ms * 2 ^ attempt ≤ 2 * delay)

-- Nothing wraps.
product_fits : (i p : ℕ) → i * p < two64 → (i * (p % two64)) % two64 ≡ i * p
product_fits zero p h = omega arith
product_fits (suc i) p h =
    let fits : p < two64 = omega (arith, h, suc-mul i p) in
    let same : p % two64 ≡ p = omega (arith, fits) in rw same (omega (arith, h))

power : (a : ℕ) → 2 ^ (a + 1) ≡ 2 ^ a * 2
power a = let next : a + 1 ≡ suc a = omega arith in rw next (pow-suc 2 a)

module _ (config : RetryConfig) where
  open config use {max_delay_ms, initial_delay_ms}

  next_delay_lem :
      (attempt delay : ℕ)
      → 0 < max_delay_ms
      → 2 * max_delay_ms ≤ two64
      → KeepsUp config attempt delay
      → (next_delay config attempt delay < 2 * max_delay_ms)
        × KeepsUp config (attempt + 1) (next_delay config attempt delay)
  unfolding next_delay
  next_delay_lem attempt delay some fits keeps = elim (Bool-cases (leb max_delay_ms delay)) [
    | inl h ↦
        let same : min delay max_delay_ms ≡ max_delay_ms = ground (arith, h) in
        rw (next_delay, h, same) (omega (arith, some), inl (omega arith))
    | inr h ↦
        let short : delay < max_delay_ms = ground (arith, h) in
        let kept : initial_delay_ms * 2 ^ attempt ≤ 2 * delay = elim keeps [
          | inl late ↦ absurd (omega (arith, late, short))
          | inr k ↦ k
        ] in
        let product =
          product_fits initial_delay_ms (2 ^ attempt) (omega (arith, kept, short, fits)) in
        let doubled : initial_delay_ms * 2 ^ (attempt + 1) ≡ 2 * (initial_delay_ms * 2 ^ attempt) =
          ap (λ p. initial_delay_ms * p) (power attempt)
          ∙ sym (mul_assoc initial_delay_ms (2 ^ attempt) 2)
          ∙ omega arith in
        rw (next_delay, h, product) (omega (arith, kept, short), inr (omega (arith, doubled)))
  ]

  module _ {T E : Type 0} (op : ℕ → Answer T E) (is_retryable : E → Bool) where
    -- A round that got the answer `a`.
    round :
        (a : Answer T E) (left attempt delay : ℕ)
        → op attempt ≡ a
        → next_delay config attempt delay < 2 * max_delay_ms
        → AreBelow
            (2 * max_delay_ms)
            (retry_loop op is_retryable config left
              (attempt + 1)
              (next_delay config attempt delay)).1
        → AreBelow (2 * max_delay_ms) (retry_loop op is_retryable config (suc left) attempt delay).1
    unfolding retry_loop
    round (Answer.success v) left attempt delay e below more = rw (retry_loop, e) tt
    round (Answer.failure f) left attempt delay e below more = elim (Bool-cases (is_retryable f)) [
      | inr never ↦ rw (retry_loop, e, never) tt
      | inl again ↦ elim (Bool-cases (leb config.max_attempts (attempt + 1))) [
        | inl end ↦ rw (retry_loop, e, again, end) tt
        | inr on ↦ rw (retry_loop, e, again, on) (below, more)
      ]
    ]

    retry_loop-AreBelow :
        (left attempt delay : ℕ)
        → 0 < max_delay_ms
        → 2 * max_delay_ms ≤ two64
        → KeepsUp config attempt delay
        → AreBelow (2 * max_delay_ms) (retry_loop op is_retryable config left attempt delay).1
    unfolding retry_loop
    retry_loop-AreBelow zero attempt delay some fits keeps = tt
    retry_loop-AreBelow (suc left) attempt delay some fits keeps =
        let waited = next_delay_lem attempt delay some fits keeps in
        round (op attempt) left attempt delay refl waited.0 (
          retry_loop-AreBelow left (attempt + 1) (next_delay config attempt delay) some fits
            waited.1)

    -- With a limit on the delay of at most 2 ^ 63, each delay is less than twice the limit.
    pub retry-AreBelow :
        0 < max_delay_ms
        → 2 * max_delay_ms ≤ two64
        → AreBelow (2 * max_delay_ms) (retry op is_retryable config).1
    unfolding retry
    retry-AreBelow some fits =
        retry_loop-AreBelow config.max_attempts 0 initial_delay_ms some fits (inr (omega arith))
