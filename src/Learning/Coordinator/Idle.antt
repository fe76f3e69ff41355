-- ===== src/Learning/Coordinator/Idle.antt =====
-- When the coordinator ends for want of work.
use agent_experience_agentic.Common.{
  ℕ, ◌+◌, ◌≤◌, [], Option, none, some, ◌≡◌, ◌∙◌, sym, refl, arith,
}
use agent_experience_agentic.Learning.Settings.{AnalysisWorkerSettings}
use agent_experience_agentic.Learning.Coordinator.{
  CoordinatorTurn, idle_timeout, Kept, keeps, loses, breaks, wait, Coordinator, returns, coordinate,
  renew, work, see_work, launched_state, launch_count, launch_children, is_idle,
}

work-idle_timeout :
    (settings : AnalysisWorkerSettings) (now : ℕ) (turn : CoordinatorTurn) (c : Coordinator)
    (attempt : ℕ)
    → 1 ≤ settings.idle_timeout_ms
    → (work settings now turn c).verdict ≡ returns idle_timeout attempt
    → (turn.claimable ≡ 0)
      × (turn.active_running ≡ 0)
      × (c.active ≡ [])
      × (c.idle_since + settings.idle_timeout_ms ≤ now)
      × (turn.claimable_after ≡ 0)
      × (turn.active_running_after ≡ 0)
unfolding work wait see_work launched_state launch_count is_idle launch_children
work-idle_timeout settings now turn c attempt positive e = ground (arith, e)

renew-work :
    (now : ℕ) (turn : CoordinatorTurn) (c : Coordinator) {kept : Coordinator}
    → renew now turn c ≡ keeps kept
    → (kept.active ≡ c.active) × (kept.idle_since ≡ c.idle_since)
unfolding renew
renew-work now turn c {kept} e = (ground arith, ground arith)

-- A turn in which there is no work, after a time without work.
pub record IsWorkless (settings : AnalysisWorkerSettings) (turn : CoordinatorTurn) (c : Coordinator)
    (now : ℕ) : Type 0 where
  pub read : turn.now ≡ some now
  pub waited : c.idle_since + settings.idle_timeout_ms ≤ now
  pub none_active : c.active ≡ []
  pub no_jobs : turn.claimable ≡ 0
  pub none_running : turn.active_running ≡ 0
  pub no_jobs_after : turn.claimable_after ≡ 0
  pub none_running_after : turn.active_running_after ≡ 0

-- The loop ends for want of work only when there is none.
pub coordinate-idle_timeout :
    (settings : AnalysisWorkerSettings) (turn : CoordinatorTurn) (c : Coordinator) {attempt : ℕ}
    → 1 ≤ settings.idle_timeout_ms
    → (coordinate settings turn c).verdict ≡ returns idle_timeout attempt
    → (now : ℕ) × IsWorkless settings turn c now
unfolding coordinate
coordinate-idle_timeout settings turn c {attempt} positive e = by_now turn.now refl
  where
    by_renewal :
        (now : ℕ) (kept : Kept)
        → turn.now ≡ some now
        → renew now turn c ≡ kept
        → (now : ℕ) × IsWorkless settings turn c now
    by_renewal now loses f g = absurd (ground (arith, e, f, g))
    by_renewal now breaks f g = absurd (ground (arith, e, f, g))
    by_renewal now (keeps kept) f g =
        let (same, since) = renew-work now turn c g in
        let (a, b, d, t, u, v) =
          work-idle_timeout settings now turn kept attempt positive (ground (arith, e, f, g)) in
        (
          now,
          record {
            read = f;
            waited = omega (arith, t, since);
            none_active = sym same ∙ d;
            no_jobs = a;
            none_running = b;
            no_jobs_after = u;
            none_running_after = v;
          },
        )

    by_now : (o : Option ℕ) → turn.now ≡ o → (now : ℕ) × IsWorkless settings turn c now
    by_now none f = absurd (ground (arith, e, f))
    by_now (some now) f = by_renewal now (renew now turn c) f refl
