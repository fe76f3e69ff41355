-- ===== src/Runtime/Tests/Resolutions.antt =====
-- Resolutions of a runtime that has no index in memory.
use agent_experience_agentic.Common.{
  ℕ, ◌≡◌, refl, ◌≢◌, ◌↔◌, ◌⊎◌, ◌+◌, ◌≤◌, true, List, [], ◌∷◌, none, ok, err, length,
}
use agent_experience_agentic.Runtime.Contracts.{normal, caution}
use agent_experience_agentic.Runtime.CircuitBreaker.{half_open, can_attempt}
use agent_experience_agentic.Runtime.Resilience.{
  Load, loaded, unavailable, unexpected, resolve, RuntimeResolution, with_index, snapshot, healthy,
  recovered, ResilientRuntime,
}
use agent_experience_agentic.Runtime.Resilience.Laws.{resolve-settles, resolve-err_iff}
use agent_experience_agentic.Runtime.Resilience.Diagnostics.{
  Call, resolves, clears, run, run-diagnostics_le,
}
use agent_experience_agentic.Runtime.Gate.{RuleIndex, RuntimeGateOptions, create_runtime_gate}
use agent_experience_agentic.Runtime.Gate.Construction.{
  IsResolved, create_runtime_gate_iff, resolve-create_runtime_gate,
}
use agent_experience_agentic.Runtime.Tests.Samples.{profile, runtime, tripped, index}

abbrev lost : Load RuleIndex ℕ
lost = unavailable

abbrev broken : Load RuleIndex ℕ
broken = unexpected 7

abbrev down : ResilientRuntime RuleIndex
down = record runtime { breaker = tripped }

resolve-settles_example :
    (resolve down caution lost (unexpected 7) 40000 40001).runtime.breaker.state ≢ half_open
resolve-settles_example = resolve-settles down caution lost (unexpected 7) 40000 40001 (λ e. cc)

resolve-err_iff_example : ((resolve runtime caution lost broken 1 2).result ≡ err 7) ↔ (
    (runtime.current ≡ none)
    × ((can_attempt runtime.breaker 1).1 ≡ true)
    × ((lost ≡ unexpected 7) ⊎ ((lost ≡ unavailable) × (broken ≡ unexpected 7))))
resolve-err_iff_example = resolve-err_iff runtime caution lost broken 1 2 7

abbrev outage : List (Call RuleIndex ℕ)
outage =
    resolves caution lost lost 1 2
    ∷ resolves caution lost lost 3 4
    ∷ resolves caution (loaded index) lost 5 6
    ∷ clears
    ∷ resolves caution lost lost 7 8
    ∷ []

run-diagnostics_le_example :
    let log = run (record { runtime = runtime; diagnostics = []; loads = 0 }) outage in
    length log.diagnostics ≤ log.loads + 1
run-diagnostics_le_example = run-diagnostics_le runtime outage

abbrev fresh : RuntimeResolution RuleIndex
fresh = with_index (recovered runtime index) snapshot healthy index

abbrev options : RuntimeGateOptions
options = record { index = fresh.index; profile = profile; status = fresh.status }

create_runtime_gate_iff_example : (create_runtime_gate options ≡ ok options) ↔ IsResolved options
create_runtime_gate_iff_example = create_runtime_gate_iff options

resolve-create_runtime_gate_example : create_runtime_gate options ≡ ok options
unfolding resolve
resolve-create_runtime_gate_example =
    resolve-create_runtime_gate {Error = ℕ} runtime normal (loaded index) unavailable 1 2 fresh refl
