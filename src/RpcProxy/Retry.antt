-- ===== src/RpcProxy/Retry.antt =====
-- `retry` of rpc-proxy/src/retry.rs: an operation is repeated, with growing delays.
pub mod Ends
pub mod Delays
use solenoid.Base.{
  ℕ, zero, suc, ◌+◌, ◌*◌, ◌%◌, ◌^◌, Bool, not, Option, none, some, List, [], ◌∷◌, min, leb,
  if◌then◌else◌,
}
use solenoid.Base.I64.{two64}

pub record RetryConfig : Type 0 where
  pub max_attempts : ℕ
  pub initial_delay_ms : ℕ
  pub max_delay_ms : ℕ

-- A `Result`.
pub data Answer (T E : Type 0) : Type 0 where
  success : T → Answer T E
  failure : E → Answer T E

-- The delay behind a failed attempt, in wrapping arithmetic on 64 bits.
unfoldable pub next_delay : RetryConfig → ℕ → ℕ → ℕ
next_delay config attempt delay =
    if leb config.max_delay_ms delay
    then min delay config.max_delay_ms
    else (config.initial_delay_ms * (2 ^ attempt % two64)) % two64

-- What the calls gave, and the delays that were slept; `none` is a panic.
abbrev pub Retried : Type 0 → Type 0 → Type 0
Retried T E = Option (Answer T E) × List ℕ

abbrev slept : {T E : Type 0} → ℕ → Retried T E → Retried T E
slept delay (answer, delays) = (answer, delay ∷ delays)

-- The operation is the sequence of its answers: the n-th call gives the n-th.
module _ {T E : Type 0} (op : ℕ → Answer T E) (is_retryable : E → Bool) (config : RetryConfig) where
  -- The attempts from `attempt` on, `left` of them.
  unfoldable pub retry_loop : ℕ → ℕ → ℕ → Retried T E
  unfolding next_delay
  retry_loop zero attempt delay = (none, [])
  retry_loop (suc left) attempt delay =
      let waited = next_delay config attempt delay in
      let rest = slept waited (retry_loop left (attempt + 1) waited) in
      elim (op attempt) [
        | Answer.success v ↦ (some (Answer.success v), [])
        | Answer.failure e ↦
            if not (is_retryable e)
            then (some (Answer.failure e), [])
            else if leb config.max_attempts (attempt + 1)
            then (some (Answer.failure e), [])
            else rest
      ]

  unfoldable pub retry : Retried T E
  unfolding retry_loop
  retry = retry_loop config.max_attempts 0 config.initial_delay_ms
