-- ===== src/Runtime/CircuitBreaker.antt =====
-- src/runtime/circuit-breaker.ts. A method returns the new breaker. The injected clock is an
-- argument of each method that reads it; its values are milliseconds, and may go back. The state
-- 'open' is `opened`.
pub mod Laws
pub mod Runs
use agent_experience_agentic.Common.{
  ℕ, suc, ◌+◌, Bool, true, false, ◌||◌, if◌then◌else◌, ltb, leb, Result, ok, err,
}

pub data CircuitState : Type 0 where
  closed opened half_open : CircuitState

pub record CircuitBreaker : Type 0 where
  pub failure_threshold : ℕ
  pub reset_after_ms : ℕ
  pub state : CircuitState
  pub failures : ℕ
  pub opened_at : ℕ

pub data ConfigError : Type 0 where
  threshold_not_positive : ConfigError

-- The constructor. A native number is an integer, finite and not negative, so of its checks only
-- the one of the threshold can fail.
unfoldable pub new : ℕ → ℕ → Result ConfigError CircuitBreaker
new failure_threshold reset_after_ms =
    if ltb failure_threshold 1
    then err threshold_not_positive
    else ok (record {
      failure_threshold = failure_threshold;
      reset_after_ms = reset_after_ms;
      state = closed;
      failures = 0;
      opened_at = 0;
    })

-- `clock() - openedAt < resetAfterMs`, with the subtraction moved to the other side.
unfoldable pub is_cooling : CircuitBreaker → ℕ → Bool
is_cooling b now = ltb now (b.opened_at + b.reset_after_ms)

attempt_from : CircuitState → CircuitBreaker → ℕ → CircuitBreaker × Bool
unfolding is_cooling
attempt_from closed b now = (b, true)
attempt_from half_open b now = (b, false)
attempt_from opened b now =
    if is_cooling b now then (b, false) else (record b { state = half_open }, true)

unfoldable pub can_attempt : CircuitBreaker → ℕ → CircuitBreaker × Bool
unfolding attempt_from
can_attempt b now = attempt_from b.state b now

unfoldable pub record_success : CircuitBreaker → CircuitBreaker
record_success b = record b { state = closed; failures = 0 }

abbrev is_half_open : CircuitState → Bool
is_half_open half_open = true
is_half_open _ = false

unfoldable pub record_failure : CircuitBreaker → ℕ → CircuitBreaker
record_failure b now =
    let counted = record b { failures = b.failures + 1 } in
    if is_half_open b.state || leb b.failure_threshold (b.failures + 1)
    then record counted { state = opened; opened_at = now }
    else counted

unfoldable pub abort_attempt : CircuitBreaker → ℕ → CircuitBreaker
abort_attempt b now =
    if is_half_open b.state then record b { state = opened; opened_at = now } else b

unfoldable pub reset : CircuitBreaker → CircuitBreaker
unfolding record_success
reset b = record_success b
