-- ===== src/Runtime/CircuitBreaker/Laws.antt =====
-- The state machine of the breaker: its edges, and what holds between two calls.
use agent_experience_agentic.Common.{ℕ, ◌≤◌, ◌<◌, ◌≡◌, ◌≢◌, ok, arith}
use agent_experience_agentic.Runtime.CircuitBreaker.{
  CircuitState, closed, opened, half_open, CircuitBreaker, new, can_attempt, record_success,
  record_failure, abort_attempt, reset,
}

-- The calls of the breaker, each with the reading of the clock that it makes if it makes one.
pub data Call : Type 0 where
  attempt_at : ℕ → Call
  success : Call
  failure_at : ℕ → Call
  abort_at : ℕ → Call
  resets : Call

unfoldable pub call : CircuitBreaker → Call → CircuitBreaker
unfolding can_attempt record_success record_failure abort_attempt reset
call b (attempt_at now) = (can_attempt b now).0
call b success = record_success b
call b (failure_at now) = record_failure b now
call b (abort_at now) = abort_attempt b now
call b resets = reset b

-- The diagram of the three states.
pub data Edge : CircuitState → CircuitState → Type 0 where
  stay : {s : CircuitState} → Edge s s
  close : {s : CircuitState} → Edge s closed
  trip : {s : CircuitState} → Edge s opened
  probe : Edge opened half_open

-- A call moves along the diagram: the half-open state is entered from the open one alone.
pub call-Edge : (b : CircuitBreaker) (c : Call) → Edge b.state (call b c).state
unfolding call
call-Edge b c = grind (arith, stay, close, trip, probe)

-- The configuration is never changed, and a breaker that is closed has counted fewer failures
-- than its threshold.
pub record IsValid (b : CircuitBreaker) : Type 0 where
  pub positive : 1 ≤ b.failure_threshold
  pub closed_below : b.state ≡ closed → b.failures < b.failure_threshold
  pub tripped : b.state ≢ closed → 1 ≤ b.failures

pub new-IsValid :
    (threshold reset_ms : ℕ) {b : CircuitBreaker} → new threshold reset_ms ≡ ok b → IsValid b
unfolding new
new-IsValid threshold reset_ms {b} h = ground arith

-- Every call keeps a closed breaker below its threshold, and one that is not closed with a
-- failure counted.
pub call-IsValid : {b : CircuitBreaker} (c : Call) → IsValid b → IsValid (call b c)
unfolding call
call-IsValid (attempt_at now) v = ground arith
call-IsValid success v = ground arith
call-IsValid (failure_at now) v = ground arith
call-IsValid (abort_at now) v = ground arith
call-IsValid resets v = ground arith
