-- ===== src/Learning/Coordinator/Run.antt =====
-- The whole of runAnalysisCoordinator: the settings, the lease, the turns and the `finally` block.
use agent_experience_agentic.Common.{
  ℕ, zero, suc, ◌+◌, List, [], ◌∷◌, ◌++◌, Bool, true, false, Option, none, some, ok, err,
}
use agent_experience_agentic.Learning.Settings.{AnalysisWorkerSettings, validate_settings}
use agent_experience_agentic.Learning.Coordinator.{
  lease_renewal_ms, CoordinatorTurn, CoordinatorStatus, lease_held, LeaseAnswer, granted, refused,
  throws, CoordinatorCall, release_lease, Coordinator, returns, raises, goes_on, coordinate,
}

pub data CoordinatorEnd : Type 0 where
  returned : CoordinatorStatus → CoordinatorEnd
  raised out_of_turns : CoordinatorEnd

pub record CoordinatorRun : Type 0 where
  pub outcome : CoordinatorEnd
  pub calls : List CoordinatorCall

-- The clock is read twice before the loop, for the next renewal and for the idle time.
pub record CoordinatorHost : Type 0 where
  pub acquired : LeaseAnswer
  pub started : Option ℕ
  pub idle_started : Option ℕ
  pub release_throws : Bool
  pub turn : ℕ → CoordinatorTurn

abbrev pub closing : CoordinatorEnd → (attempt : ℕ) → List CoordinatorCall → CoordinatorRun
closing outcome attempt calls = record {
  outcome = outcome;
  calls = calls ++ (release_lease attempt ∷ []);
}

abbrev pub preceded : List CoordinatorCall → CoordinatorRun → CoordinatorRun
preceded calls run = record run { calls = calls ++ run.calls }

unfoldable pub coordinate_turns :
    AnalysisWorkerSettings
    → (turn : ℕ → CoordinatorTurn) (fuel number : ℕ) → Coordinator
    → CoordinatorRun
coordinate_turns settings turn zero number c = record { outcome = out_of_turns; calls = [] }
coordinate_turns settings turn (suc fuel) number c =
    let step = coordinate settings (turn number) c in
    elim step.verdict [
      | returns status attempt ↦ closing (returned status) attempt step.calls
      | raises attempt ↦ closing raised attempt step.calls
      | goes_on next ↦ preceded step.calls (coordinate_turns settings turn fuel (suc number) next)
    ]

abbrev pub first_state : (attempt started_at idle_from : ℕ) → Coordinator
first_state attempt started_at idle_from = record {
  attempt = attempt;
  next_renewal = started_at + lease_renewal_ms;
  idle_since = idle_from;
  active = [];
}

-- A release that throws in the `finally` block.
abbrev pub end_of : (fails : Bool) → CoordinatorEnd → CoordinatorEnd
end_of fails out_of_turns = out_of_turns
end_of fails raised = raised
end_of true (returned _) = raised
end_of false (returned status) = returned status

abbrev pub released : (fails : Bool) → CoordinatorRun → CoordinatorRun
released fails run = record run { outcome = end_of fails run.outcome }

unfoldable pub run_analysis_coordinator :
    AnalysisWorkerSettings → CoordinatorHost → (fuel : ℕ) → CoordinatorRun
run_analysis_coordinator settings host fuel = elim (validate_settings settings) [
  | err _ ↦ record { outcome = raised; calls = [] }
  | ok _ ↦ elim host.acquired [
    | refused ↦ record { outcome = returned lease_held; calls = [] }
    | throws ↦ record { outcome = raised; calls = [] }
    | granted attempt ↦ elim host.started [
      | none ↦ record { outcome = raised; calls = [] }
      | some started_at ↦ elim host.idle_started [
        | none ↦ record { outcome = raised; calls = [] }
        | some idle_from ↦
            released host.release_throws (
              coordinate_turns settings host.turn fuel 0 (first_state attempt started_at idle_from))
      ]
    ]
  ]
]
