-- ===== src/Runtime/CircuitBreaker/Runs.antt =====
-- A run of failures with no success between: when the breaker opens.
use agent_experience_agentic.Common.{ℕ, ◌+◌, ◌≤◌, ◌<◌, ◌≡◌, ◌↔◌, List, [], ◌∷◌, arith, length}
use native.Mathlib.Decide.{dec_le}
use agent_experience_agentic.Runtime.CircuitBreaker.{closed, opened, CircuitBreaker, record_failure}

-- Failures one after the other, each at a reading of the clock.
unfoldable pub fails : CircuitBreaker → List ℕ → CircuitBreaker
fails b [] = b
fails b (now ∷ later) = fails (record_failure b now) later

record_failure-opened :
    (b : CircuitBreaker) (now : ℕ)
    → b.state ≡ opened
    → b.failure_threshold ≤ b.failures
    → ((record_failure b now).state ≡ opened)
      × ((record_failure b now).failure_threshold ≤ (record_failure b now).failures)
unfolding record_failure
record_failure-opened b now o h = ground arith

record_failure-closed :
    (b : CircuitBreaker) (now : ℕ)
    → b.state ≡ closed
    → b.failures + 1 < b.failure_threshold
    → (record_failure b now).state ≡ closed
unfolding record_failure
record_failure-closed b now o h = ground arith

record_failure-trips :
    (b : CircuitBreaker) (now : ℕ)
    → b.failure_threshold ≤ b.failures + 1
    → (record_failure b now).state ≡ opened
unfolding record_failure
record_failure-trips b now h = ground arith

record_failure-counts :
    (b : CircuitBreaker) (now : ℕ)
    → ((record_failure b now).failures ≡ b.failures + 1)
      × ((record_failure b now).failure_threshold ≡ b.failure_threshold)
unfolding record_failure
record_failure-counts b now = ground arith

fails-opened :
    (b : CircuitBreaker) (ts : List ℕ)
    → b.state ≡ opened
    → b.failure_threshold ≤ b.failures
    → (fails b ts).state ≡ opened
unfolding fails
fails-opened b [] o h = o
fails-opened b (now ∷ later) o h =
    let (o', h') = record_failure-opened b now o h in
    fails-opened (record_failure b now) later o' h'

fails-trips :
    (b : CircuitBreaker) (ts : List ℕ)
    → b.state ≡ closed
    → b.failures < b.failure_threshold
    → b.failure_threshold ≤ b.failures + length ts
    → (fails b ts).state ≡ opened
unfolding fails
fails-trips b [] c v h = absurd (omega arith)
fails-trips b (now ∷ later) c v h =
    let (count, limit) = record_failure-counts b now in
    elim (dec_le b.failure_threshold (b.failures + 1)) [
      | yes now_full ↦
          fails-opened (record_failure b now) later (record_failure-trips b now now_full)
            (omega arith)
      | no below ↦
          fails-trips (record_failure b now) later (record_failure-closed b now c (omega arith))
            (omega arith) (omega arith)
    ]

fails-holds :
    (b : CircuitBreaker) (ts : List ℕ)
    → b.state ≡ closed
    → b.failures + length ts < b.failure_threshold
    → (fails b ts).state ≡ closed
unfolding fails
fails-holds b [] c h = c
fails-holds b (now ∷ later) c h =
    let (count, limit) = record_failure-counts b now in
    fails-holds (record_failure b now) later (record_failure-closed b now c (omega arith))
      (omega arith)

-- A closed breaker is opened by a run of failures exactly when they bring its count to the
-- threshold; a shorter run leaves it closed.
pub fails-opened_iff :
    (b : CircuitBreaker) (ts : List ℕ)
    → b.state ≡ closed
    → b.failures < b.failure_threshold
    → (((fails b ts).state ≡ opened) ↔ (b.failure_threshold ≤ b.failures + length ts))
      × (((fails b ts).state ≡ closed) ↔ (b.failures + length ts < b.failure_threshold))
fails-opened_iff b ts c v = elim (dec_le b.failure_threshold (b.failures + length ts)) [
  | yes reached ↦
      let o = fails-trips b ts c v reached in
      ((λ _. reached, λ _. o), (λ e. cc, λ l. absurd (omega arith)))
  | no below ↦
      let l : b.failures + length ts < b.failure_threshold = omega arith in
      let k = fails-holds b ts c l in ((λ e. cc, λ r. absurd (below r)), (λ _. l, λ _. k))
]
