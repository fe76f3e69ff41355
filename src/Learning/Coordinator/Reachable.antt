-- ===== src/Learning/Coordinator/Reachable.antt =====
-- The states that the coordinator goes through.
use agent_experience_agentic.Common.{ℕ, suc, ◌≤◌, ok, length, ◌≡◌, arith}
use agent_experience_agentic.Learning.Settings.{AnalysisWorkerSettings, validate_settings}
use agent_experience_agentic.Learning.Coordinator.{
  CoordinatorTurn, Coordinator, goes_on, coordinate,
}
use agent_experience_agentic.Learning.Coordinator.Run.{first_state}
use agent_experience_agentic.Learning.Coordinator.Bounds.{coordinate-active}

-- The state at the head of a turn, after acquiring a lease.
pub data Reachable (settings : AnalysisWorkerSettings) (turn : ℕ → CoordinatorTurn)
    (attempt started_at idle_from : ℕ) : ℕ → Coordinator → Type 0 where
  first :
      Reachable settings turn attempt started_at idle_from 0
        (first_state attempt started_at idle_from)
  later :
      {k : ℕ} {c next : Coordinator}
      → Reachable settings turn attempt started_at idle_from k c
      → (coordinate settings (turn k) c).verdict ≡ goes_on next
      → Reachable settings turn attempt started_at idle_from (suc k) next

module _ (settings : AnalysisWorkerSettings) (turn : ℕ → CoordinatorTurn)
    (attempt started_at idle_from : ℕ) where
  Reachable-active :
      (k : ℕ) (c : Coordinator)
      → Reachable settings turn attempt started_at idle_from k c
      → length c.active ≤ settings.max_processes
  Reachable-active _ _ Reachable.first = omega arith
  Reachable-active _ _ (Reachable.later {k} {c} r e) =
      coordinate-active settings (turn k) c (Reachable-active k c r) e

  -- Under settings that validateSettings accepts, no state that the coordinator reaches has more
  -- active workers than maxProcesses or than 16.
  pub validate_settings-active :
      validate_settings settings ≡ ok tt
      → {k : ℕ} {c : Coordinator} → Reachable settings turn attempt started_at idle_from k c
      → (length c.active ≤ settings.max_processes) × (length c.active ≤ 16)
  unfolding validate_settings
  validate_settings-active h {k} {c} r =
      let l = Reachable-active k c r in
      let m : settings.max_processes ≤ 16 = ground (arith, h) in (l, omega arith)
