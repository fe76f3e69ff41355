-- ===== src/Runtime/Resilience/Laws.antt =====
-- What a resolution guarantees, on every path through the loaders, thrown errors included.
use agent_experience_agentic.Common.{
  ℕ, ◌≡◌, ◌≢◌, ◌↔◌, ◌⊎◌, true, false, [], Option, none, some, Result, ok, err, arith,
}
use agent_experience_agentic.Runtime.Contracts.{OperationClass}
use agent_experience_agentic.Runtime.CircuitBreaker.{half_open, can_attempt}
use agent_experience_agentic.Runtime.CircuitBreaker.Laws.{IsValid}
use agent_experience_agentic.Runtime.Resilience.{
  FallbackSource, memory, degraded_policy, Load, unavailable, unexpected, ResilientRuntime,
  RuntimeResolution, resolve,
}

-- Where a returned resolution comes from.
abbrev pub source_of :
    {Index Error : Type 0} → Result Error (RuntimeResolution Index) → Option FallbackSource
source_of (ok r) = some r.source
source_of (err _) = none

module _ {Index Error : Type 0} (rt : ResilientRuntime Index) (class : OperationClass)
    (load good : Load Index Error) (asked now : ℕ) where
  -- A call of resolve that finds the breaker not half-open does not leave it half-open, whether it
  -- returns or throws.
  pub resolve-settles :
      rt.breaker.state ≢ half_open
      → (resolve rt class load good asked now).runtime.breaker.state ≢ half_open
  unfolding resolve
  resolve-settles h = ground arith

  -- A valid breaker stays valid.
  pub resolve-IsValid :
      IsValid rt.breaker → IsValid (resolve rt class load good asked now).runtime.breaker
  unfolding resolve
  resolve-IsValid v = ground arith

  -- resolve throws an error exactly when there is no index in memory, an attempt is allowed, and a
  -- loader fails with that error, which is none of the availability errors.
  pub resolve-err_iff :
      (error : Error)
      → ((resolve rt class load good asked now).result ≡ err error) ↔ (
          (rt.current ≡ none)
          × ((can_attempt rt.breaker asked).1 ≡ true)
          × ((load ≡ unexpected error) ⊎ ((load ≡ unavailable) × (good ≡ unexpected error))))
  unfolding resolve
  resolve-err_iff error = (λ h. ground arith, λ h. ground arith)

  -- An index in memory answers at once, and nothing changes.
  pub resolve-memory :
      (index : Index)
      → rt.current ≡ some index
      → ((resolve rt class load good asked now).runtime ≡ rt)
        × ((resolve rt class load good asked now).diagnostics ≡ [])
        × (source_of (resolve rt class load good asked now).result ≡ some memory)
  unfolding resolve
  resolve-memory index h = ground arith

  -- The policy for degraded operation is applied exactly when there is no index in memory, and no
  -- attempt is allowed or both loaders are unavailable.
  pub resolve-degraded_iff :
      (source_of (resolve rt class load good asked now).result ≡ some degraded_policy) ↔ (
        (rt.current ≡ none)
        × (((can_attempt rt.breaker asked).1 ≡ false)
            ⊎ ((load ≡ unavailable) × (good ≡ unavailable))))
  unfolding resolve
  resolve-degraded_iff = (λ h. ground arith, λ h. ground arith)

-- While the breaker refuses an attempt the loaders have no influence on a resolution: they are
-- not called.
pub resolve-unattempted :
    {Index Error : Type 0} (rt : ResilientRuntime Index) (class : OperationClass)
    (load good load' good' : Load Index Error) (asked now now' : ℕ)
    → (can_attempt rt.breaker asked).1 ≡ false
    → resolve rt class load good asked now ≡ resolve rt class load' good' asked now'
unfolding resolve
resolve-unattempted rt class load good load' good' asked now now' h = ground arith
