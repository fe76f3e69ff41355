-- ===== src/Runtime/Resilience/Diagnostics.antt =====
-- How often the diagnostic of degraded operation is sent over a series of calls.
use agent_experience_agentic.Common.{
  ℕ, Text, ◌+◌, ◌≤◌, List, [], ◌∷◌, ◌++◌, true, false, Result, ok, err, arith, length,
  length-append,
}
use agent_experience_agentic.Runtime.Contracts.{OperationClass}
use agent_experience_agentic.Runtime.Resilience.{
  FallbackSource, snapshot, last_known_good, Load, ResilientRuntime, RuntimeResolution, Resolved,
  resolve, clear_current,
}

-- The public calls of the runtime, with what the loaders and the clock give to each.
pub data Call (Index Error : Type 0) : Type 0 where
  resolves : OperationClass → Load Index Error → Load Index Error → ℕ → ℕ → Call Index Error
  clears : Call Index Error

-- A runtime, the diagnostics sent so far, and how many loads have succeeded.
pub record Log (Index : Type 0) : Type 0 where
  pub runtime : ResilientRuntime Index
  pub diagnostics : List Text
  pub loads : ℕ

abbrev from_loader : FallbackSource → ℕ
from_loader snapshot = 1
from_loader last_known_good = 1
from_loader _ = 0

abbrev flag : {Index : Type 0} → ResilientRuntime Index → ℕ
flag rt = elim rt.degraded_diagnostic_emitted [ true ↦ 1 | false ↦ 0 ]

-- The diagnostics sent, less the loads that made it due again, are at most what the flag says.
abbrev pub IsCounted : {Index : Type 0} → Log Index → Type 0
IsCounted log = length log.diagnostics ≤ flag log.runtime + log.loads

flag_le_one : {Index : Type 0} (rt : ResilientRuntime Index) → flag rt ≤ 1
flag_le_one rt = ground arith

module _ {Index Error : Type 0} where
  abbrev load_count : Result Error (RuntimeResolution Index) → ℕ
  load_count (ok r) = from_loader r.source
  load_count (err _) = 0

  abbrev pub extend : Log Index → Resolved Index Error → Log Index
  extend log r = record {
    runtime = r.runtime;
    diagnostics = log.diagnostics ++ r.diagnostics;
    loads = log.loads + load_count r.result;
  }

  unfoldable pub step : Log Index → Call Index Error → Log Index
  unfolding resolve
  step log (resolves class load good asked now) =
      extend log (resolve log.runtime class load good asked now)
  step log clears = record log { runtime = clear_current log.runtime }

  unfoldable pub run : Log Index → List (Call Index Error) → Log Index
  run log [] = log
  run log (c ∷ cs) = run (step log c) cs

  resolve-flag :
      (rt : ResilientRuntime Index) (class : OperationClass) (load good : Load Index Error)
      (asked now : ℕ)
      → let r = resolve rt class load good asked now in
        length r.diagnostics + flag rt ≤ flag r.runtime + load_count r.result
  unfolding resolve
  resolve-flag rt class load good asked now = ground arith

  step-IsCounted : (log : Log Index) (c : Call Index Error) → IsCounted log → IsCounted (step log c)
  unfolding step
  step-IsCounted log (resolves class load good asked now) h =
      let r = resolve log.runtime class load good asked now in
      omega (
        arith,
        length-append log.diagnostics r.diagnostics,
        resolve-flag log.runtime class load good asked now,
      )
  step-IsCounted log clears h = h

  run-IsCounted :
      (log : Log Index) (cs : List (Call Index Error)) → IsCounted log → IsCounted (run log cs)
  unfolding run
  run-IsCounted log [] h = h
  run-IsCounted log (c ∷ cs) h = run-IsCounted (step log c) cs (step-IsCounted log c h)

  -- Over any series of calls of a runtime that starts with no diagnostic sent, the outage
  -- diagnostics are at most one more than the loads that succeeded.
  pub run-diagnostics_le :
      (rt : ResilientRuntime Index) (cs : List (Call Index Error))
      → let log = run (record { runtime = rt; diagnostics = []; loads = 0 }) cs in
        length log.diagnostics ≤ log.loads + 1
  run-diagnostics_le rt cs =
      let log = run (record { runtime = rt; diagnostics = []; loads = 0 }) cs in
      omega (
        arith,
        run-IsCounted (record { runtime = rt; diagnostics = []; loads = 0 }) cs (omega arith),
        flag_le_one log.runtime,
      )
