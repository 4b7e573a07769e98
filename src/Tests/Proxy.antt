-- ===== src/Tests/Proxy.antt =====
-- Tests of the proxy.
use solenoid.Base.{ℕ, ◌*◌, ◌≡◌, refl, Bool, true, some, [], ◌∷◌, ltb, arith, if◌then◌else◌}
use solenoid.RpcProxy.Retry.{RetryConfig, Answer, next_delay, retry_loop, retry}
use solenoid.RpcProxy.Retry.Ends.{IsRetried, retry-IsRetried}
use solenoid.RpcProxy.Retry.Delays.{AreBelow, retry-AreBelow}

-- The configuration that `forward` uses, and an upstream that fails eight times.
abbrev forwarding : RetryConfig
forwarding = record { max_attempts = 30; initial_delay_ms = 1000; max_delay_ms = 20000 }

abbrev flaky : ℕ → Answer ℕ ℕ
flaky n = if ltb n 8 then Answer.failure 503 else Answer.success 7

abbrev always : ℕ → Bool
always e = true

-- One of the delays is longer than the limit.
flaky_test :
    retry flaky always forwarding
    ≡ (some (Answer.success 7), 1000 ∷ 2000 ∷ 4000 ∷ 8000 ∷ 16000 ∷ 32000 ∷ 20000 ∷ 20000 ∷ [])
unfolding retry retry_loop next_delay
flaky_test = refl

retry-IsRetried_example : IsRetried flaky always forwarding 0 (retry flaky always forwarding)
retry-IsRetried_example = retry-IsRetried flaky always forwarding (omega arith)

retry-AreBelow_example : AreBelow (2 * 20000) (retry flaky always forwarding).1
retry-AreBelow_example = retry-AreBelow forwarding flaky always (omega arith) (omega arith)
