-- ===== src/Runtime/Gate/Construction.antt =====
-- Which runtime states a gate is created from, and that a resolution is always one of them.
use agent_experience_agentic.Common.{
  ℕ, ==_iff, ◌≡◌, ◌↔◌, true, false, is_some, ok, >>=-eq-ok, arith, ◌⊎◌,
}
use agent_experience_agentic.Runtime.Contracts.{OperationClass}
use agent_experience_agentic.Runtime.Resilience.{
  degraded_policy, Health, RetrievalMode, deterministic, Load, ResilientRuntime, RuntimeResolution,
  resolve,
}
use agent_experience_agentic.Runtime.Gate.{
  RuleIndex, RuntimeGateOptions, assert_resolved_state, create_runtime_gate,
}

-- The options that the checks admit: the status is of the profile, and its three fields on
-- degradation and the index agree.
pub record IsResolved (o : RuntimeGateOptions) : Type 0 where
  pub same_id : o.status.profile_id ≡ o.profile.id
  pub same_blocking : o.status.hard_blocking ≡ o.profile.hard_blocking
  pub agree :
      ((o.status.retrieval_mode ≡ RetrievalMode.degraded)
        × (o.status.fallback_source ≡ degraded_policy)
        × (o.status.health ≡ Health.degraded)
        × (is_some o.index ≡ false))
      ⊎ ((o.status.retrieval_mode ≡ deterministic)
          × ((o.status.fallback_source ≡ degraded_policy) → ⊥)
          × ((o.status.health ≡ Health.degraded) → ⊥)
          × (is_some o.index ≡ true))

assert_resolved_state_sound :
    (o : RuntimeGateOptions) → assert_resolved_state o ≡ ok tt → IsResolved o
unfolding assert_resolved_state
assert_resolved_state_sound o h = record {
  same_id = ground (arith, ==_iff o.status.profile_id o.profile.id);
  same_blocking = ground arith;
  agree = ground arith;
}

assert_resolved_state_complete :
    (o : RuntimeGateOptions) → IsResolved o → assert_resolved_state o ≡ ok tt
unfolding assert_resolved_state
assert_resolved_state_complete o r = ground (arith, ==_iff o.status.profile_id o.profile.id)

-- createRuntimeGate returns its options exactly when the status is of the profile, and it is
-- degraded in retrieval mode, source and health and there is no index, or it is deterministic in
-- its retrieval mode, not degraded in source or health, and there is an index.
pub create_runtime_gate_iff :
    (o : RuntimeGateOptions) → (create_runtime_gate o ≡ ok o) ↔ IsResolved o
unfolding create_runtime_gate
create_runtime_gate_iff o =
    (λ h. assert_resolved_state_sound o (checked h), λ r. rw (assert_resolved_state_complete o r))
  where
    checked : create_runtime_gate o ≡ ok o → assert_resolved_state o ≡ ok tt
    checked h = (>>=-eq-ok (assert_resolved_state o) _ h).1

resolve-IsResolved :
    {Error : Type 0} (rt : ResilientRuntime RuleIndex) (class : OperationClass)
    (load good : Load RuleIndex Error) (asked now : ℕ) (r : RuntimeResolution RuleIndex)
    → (resolve rt class load good asked now).result ≡ ok r
    → IsResolved (record { index = r.index; profile = rt.profile; status = r.status })
unfolding resolve
resolve-IsResolved rt class load good asked now r h = record {
  same_id = ground arith;
  same_blocking = ground arith;
  agree = ground arith;
}

-- Where resolve returns, createRuntimeGate accepts what it returns.
pub resolve-create_runtime_gate :
    {Error : Type 0} (rt : ResilientRuntime RuleIndex) (class : OperationClass)
    (load good : Load RuleIndex Error) (asked now : ℕ) (r : RuntimeResolution RuleIndex)
    → (resolve rt class load good asked now).result ≡ ok r
    → let o : RuntimeGateOptions = record {
      index = r.index;
      profile = rt.profile;
      status = r.status;
    } in
      create_runtime_gate o ≡ ok o
resolve-create_runtime_gate rt class load good asked now r h =
    (create_runtime_gate_iff _).1 (resolve-IsResolved rt class load good asked now r h)
