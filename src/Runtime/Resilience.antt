-- ===== src/Runtime/Resilience.antt =====
-- src/runtime/resilience.ts: how the runtime comes by its rules, and what it does without them.
-- `createRuleIndex(loadCurrent())` and `createRuleIndex(loadLastKnownGood())` are arguments: the
-- index that they give, or whether the error that they throw is one of the three availability
-- errors. The two readings of the clock that a call may make are arguments as well.
pub mod Laws
pub mod Diagnostics
use agent_experience_agentic.Common.{
  ℕ, Text, codes, List, [], ◌∷◌, Bool, true, false, if◌then◌else◌, Option, none, some, Result, ok,
  err,
}
use agent_experience_agentic.Runtime.Contracts.{
  OperationClass, normal, caution, protected, DecisionOutcome, allow, RuntimeProfile,
  degraded_outcome,
}
use agent_experience_agentic.Runtime.CircuitBreaker.{
  CircuitBreaker, CircuitState, can_attempt, record_success, record_failure, abort_attempt,
}

pub data FallbackSource : Type 0 where
  memory snapshot last_known_good degraded_policy : FallbackSource

pub data Health : Type 0 where
  healthy fallback degraded : Health

pub data RetrievalMode : Type 0 where
  deterministic degraded : RetrievalMode

pub record RuntimeStatus : Type 0 where
  pub health : Health
  pub profile_id : Text
  pub hard_blocking : Bool
  pub retrieval_mode : RetrievalMode
  pub fallback_source : FallbackSource
  pub circuit_state : CircuitState

-- The result of a loader and `createRuleIndex`. `unavailable` is an error for which
-- `isExpectedAvailabilityError` holds, `unexpected` any other.
pub data Load (Index Error : Type 0) : Type 0 where
  loaded : Index → Load Index Error
  unavailable : Load Index Error
  unexpected : Error → Load Index Error

pub record ResilientRuntime (Index : Type 0) : Type 0 where
  pub profile : RuntimeProfile
  pub breaker : CircuitBreaker
  pub current : Option Index
  pub degraded_diagnostic_emitted : Bool

pub record RuntimeResolution (Index : Type 0) : Type 0 where
  pub source : FallbackSource
  pub status : RuntimeStatus
  pub index : Option Index
  pub outcome : Option DecisionOutcome

-- What a call of `resolve` leaves: the runtime, the diagnostics sent, and the value or the error.
pub record Resolved (Index Error : Type 0) : Type 0 where
  pub runtime : ResilientRuntime Index
  pub diagnostics : List Text
  pub result : Result Error (RuntimeResolution Index)

abbrev pub retrieval_mode_of : FallbackSource → RetrievalMode
retrieval_mode_of degraded_policy = RetrievalMode.degraded
retrieval_mode_of _ = deterministic

module _ {Index : Type 0} where
  unfoldable pub status : ResilientRuntime Index → FallbackSource → Health → RuntimeStatus
  status rt source health = record {
    health = health;
    profile_id = rt.profile.id;
    hard_blocking = rt.profile.hard_blocking;
    retrieval_mode = retrieval_mode_of source;
    fallback_source = source;
    circuit_state = rt.breaker.state;
  }

  unfoldable pub with_index :
      ResilientRuntime Index → FallbackSource → Health → Index → RuntimeResolution Index
  unfolding status
  with_index rt source health index = record {
    source = source;
    status = status rt source health;
    index = some index;
    outcome = none;
  }

  abbrev pub clear_current : ResilientRuntime Index → ResilientRuntime Index
  clear_current rt = record rt { current = none }

  -- `recordSuccess`, the diagnostic is due again, and the index is kept.
  abbrev pub recovered : ResilientRuntime Index → Index → ResilientRuntime Index
  recovered rt index = record rt {
    breaker = record_success rt.breaker;
    degraded_diagnostic_emitted = false;
    current = some index;
  }

abbrev pub degraded_message : Text
degraded_message =
    codes "Runtime knowledge is unavailable; applying the configured degraded policy."

abbrev pub degraded_class_outcome : RuntimeProfile → OperationClass → DecisionOutcome
degraded_class_outcome profile normal = allow
degraded_class_outcome profile caution = degraded_outcome profile.degraded_outcomes caution
degraded_class_outcome profile protected = degraded_outcome profile.degraded_outcomes protected

module _ {Index Error : Type 0} where
  -- The end of `resolve`: no rules.
  unfoldable pub degrade : ResilientRuntime Index → OperationClass → Resolved Index Error
  unfolding status
  degrade rt class = record {
    runtime = record rt { degraded_diagnostic_emitted = true };
    diagnostics = if rt.degraded_diagnostic_emitted then [] else degraded_message ∷ [];
    result = ok (record {
      source = degraded_policy;
      status = status rt degraded_policy Health.degraded;
      index = none;
      outcome = some (degraded_class_outcome rt.profile class);
    });
  }

  abbrev aborted : ResilientRuntime Index → ℕ → Error → Resolved Index Error
  aborted rt now error = record {
    runtime = record rt { breaker = abort_attempt rt.breaker now };
    diagnostics = [];
    result = err error;
  }

  abbrev recovers : ResilientRuntime Index → FallbackSource → Health → Index → Resolved Index Error
  recovers rt source health index = record {
    runtime = recovered rt index;
    diagnostics = [];
    result = ok (with_index (recovered rt index) source health index);
  }

  try_last_known_good :
      ResilientRuntime Index → OperationClass → Load Index Error → ℕ → Resolved Index Error
  unfolding with_index degrade record_success abort_attempt record_failure
  try_last_known_good rt class (loaded index) now = recovers rt last_known_good fallback index
  try_last_known_good rt class (unexpected error) now = aborted rt now error
  try_last_known_good rt class unavailable now =
      degrade (record rt { breaker = record_failure rt.breaker now }) class

  try_current :
      ResilientRuntime Index
      → OperationClass
      → Load Index Error
      → Load Index Error
      → ℕ
      → Resolved Index Error
  unfolding try_last_known_good
  try_current rt class (loaded index) good now = recovers rt snapshot healthy index
  try_current rt class (unexpected error) good now = aborted rt now error
  try_current rt class unavailable good now = try_last_known_good rt class good now

  -- `asked` is the clock in `canAttempt`, `now` the clock in the call that settles the attempt.
  resolve_from :
      Option Index
      → ResilientRuntime Index
      → OperationClass
      → Load Index Error
      → Load Index Error
      → ℕ
      → ℕ
      → Resolved Index Error
  unfolding try_current can_attempt
  resolve_from (some index) rt class load good asked now = record {
    runtime = rt;
    diagnostics = [];
    result = ok (with_index rt memory healthy index);
  }
  resolve_from none rt class load good asked now =
      let (breaker, allowed) = can_attempt rt.breaker asked in
      let rt' = record rt { breaker = breaker } in
      if allowed then try_current rt' class load good now else degrade rt' class

  unfoldable pub resolve :
      ResilientRuntime Index
      → OperationClass
      → Load Index Error
      → Load Index Error
      → ℕ
      → ℕ
      → Resolved Index Error
  unfolding resolve_from
  resolve rt class load good asked now = resolve_from rt.current rt class load good asked now
