-- ===== src/RpcProxy/Retry/Ends.antt =====
-- `retry` of rpc-proxy/src/retry.rs ends, with the answer that it should.
use solenoid.Base.{
  ℕ, zero, suc, ◌+◌, ◌<◌, ◌≡◌, refl, subst, ◌⊎◌, inl, inr, Bool, true, false, Bool-cases, Option,
  some, List, [], ◌∷◌, length, leb, arith,
}
use solenoid.RpcProxy.Retry.{RetryConfig, Answer, next_delay, retry_loop, retry}

-- A failure that is worth another call.
abbrev pub IsTransient : {T E : Type 0} → (E → Bool) → Answer T E → Type 0
IsTransient is_retryable (Answer.success v) = ⊥
IsTransient is_retryable (Answer.failure e) = is_retryable e ≡ true

abbrev pub IsFinal : {T E : Type 0} → (E → Bool) → Answer T E → Type 0
IsFinal is_retryable (Answer.success v) = Unit {0}
IsFinal is_retryable (Answer.failure e) = is_retryable e ≡ false

module _ {T E : Type 0} (op : ℕ → Answer T E) (is_retryable : E → Bool) (config : RetryConfig) where
  -- The calls from `attempt` on end with the one after `delays`: the calls before it failed in
  -- passing, and it did not, or it is the last one allowed.
  pub record IsRetried (attempt : ℕ) (r : Option (Answer T E) × List ℕ) : Type 0 where
    pub answered : r.0 ≡ some (op (attempt + length r.1))
    pub allowed : attempt + length r.1 < config.max_attempts
    pub before : (i : ℕ) → i < length r.1 → IsTransient is_retryable (op (attempt + i))
    pub last :
        IsFinal is_retryable (op (attempt + length r.1))
        ⊎ (attempt + length r.1 + 1 ≡ config.max_attempts)

  shifted :
      (attempt : ℕ) (n i : ℕ)
      → IsTransient is_retryable (op attempt)
      → ((j : ℕ) → j < n → IsTransient is_retryable (op (attempt + 1 + j)))
      → i < suc n
      → IsTransient is_retryable (op (attempt + i))
  shifted attempt n zero failed more h =
      let same : attempt ≡ attempt + 0 = omega arith in
      subst (λ k. IsTransient is_retryable (op k)) same failed
  shifted attempt n (suc i) failed more h =
      let same : attempt + 1 + i ≡ attempt + suc i = omega arith in
      subst (λ k. IsTransient is_retryable (op k)) same (more i (omega (arith, h)))

  later :
      (attempt : ℕ) (delay : ℕ) (answer : Option (Answer T E)) (delays : List ℕ)
      → IsTransient is_retryable (op attempt)
      → IsRetried (attempt + 1) (answer, delays)
      → IsRetried attempt (answer, delay ∷ delays)
  later attempt delay answer delays failed r =
      let moved : attempt + suc (length delays) ≡ attempt + 1 + length delays = omega arith in
      record {
        answered = rw (moved) r.answered;
        allowed = omega (arith, r.allowed);
        before = λ i h. shifted attempt (length delays) i failed r.before h;
        last = rw (moved) r.last;
      }

  -- The loop stops at once.
  stopped :
      (attempt : ℕ) (a : Answer T E)
      → op attempt ≡ a
      → attempt < config.max_attempts
      → IsFinal is_retryable a ⊎ (attempt + 1 ≡ config.max_attempts)
      → IsRetried attempt (some a, [])
  stopped attempt a e allowed last =
      let here : attempt + 0 ≡ attempt = omega arith in
      record {
        answered = rw (here, e) refl;
        allowed = omega (arith, allowed);
        before = λ i h. absurd (omega (arith, h));
        last = rw (here, e) last;
      }

  -- A round that got the answer `a`.
  round :
      (a : Answer T E) (left attempt delay : ℕ)
      → op attempt ≡ a
      → attempt + suc left ≡ config.max_attempts
      → (0 < left
          → IsRetried (attempt + 1) (
              retry_loop op is_retryable config left
                (attempt + 1)
                (next_delay config attempt delay)))
      → IsRetried attempt (retry_loop op is_retryable config (suc left) attempt delay)
  unfolding retry_loop
  round (Answer.success v) left attempt delay e all again =
      rw (retry_loop, e) (stopped attempt (Answer.success v) e (omega (arith, all)) (inl tt))
  round (Answer.failure f) left attempt delay e all again = elim (Bool-cases (is_retryable f)) [
    | inr never ↦
        rw (retry_loop, e, never)
          (stopped attempt (Answer.failure f) e (omega (arith, all)) (inl never))
    | inl again_ok ↦ elim (Bool-cases (leb config.max_attempts (attempt + 1))) [
      | inl end ↦
          rw (retry_loop, e, again_ok, end)
            (stopped attempt (Answer.failure f) e (omega (arith, all))
              (inr (ground (arith, end, all))))
      | inr more ↦
          let waited = next_delay config attempt delay in
          let rest = retry_loop op is_retryable config left (attempt + 1) waited in
          rw (retry_loop, e, again_ok, more)
            (later attempt waited rest.0 rest.1 (rw e again_ok) (again (ground (arith, more, all))))
    ]
  ]

  retry_loop-IsRetried :
      (left attempt delay : ℕ)
      → 0 < left
      → attempt + left ≡ config.max_attempts
      → IsRetried attempt (retry_loop op is_retryable config left attempt delay)
  retry_loop-IsRetried zero attempt delay h all = absurd (omega (arith, h))
  retry_loop-IsRetried (suc left) attempt delay h all =
      round (op attempt) left attempt delay refl all λ more.
        retry_loop-IsRetried left (attempt + 1) (next_delay config attempt delay) more
          (omega (arith, all))

  -- With at least one attempt allowed, `retry` does not panic: its answer is that of its last
  -- call, it makes no more calls than allowed, every call before the last one failed in passing,
  -- and the last one succeeded, failed for good, or was the last one allowed.
  pub retry-IsRetried : 0 < config.max_attempts → IsRetried 0 (retry op is_retryable config)
  unfolding retry
  retry-IsRetried h =
      retry_loop-IsRetried config.max_attempts 0 config.initial_delay_ms h (omega arith)
