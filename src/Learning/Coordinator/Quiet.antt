-- ===== src/Learning/Coordinator/Quiet.antt =====
-- That the coordinator ends when there is nothing to do.
use agent_experience_agentic.Common.{
  ℕ, zero, suc, ◌+◌, ◌≤◌, ◌<◌, List, [], ◌∷◌, false, some, ok, leb, ◌≡◌, ◌∙◌, refl, arith, inl, inr,
  ◌⊎◌, Bool-cases,
}
use agent_experience_agentic.Learning.Settings.{AnalysisWorkerSettings, validate_settings}
use agent_experience_agentic.Learning.Coordinator.{
  Settled, CoordinatorTurn, idle_timeout, Faults, granted, keeps, wait, Coordinator, returns,
  goes_on, coordinate, renew, work, see_work, launched_state, launch_count, launch_children,
  settle_children, is_idle, launch_turn, lease_renewal_ms,
}
use agent_experience_agentic.Learning.Coordinator.Run.{
  CoordinatorHost, returned, coordinate_turns, first_state, run_analysis_coordinator,
}

settle_none : (settled : List Settled) → (settle_children settled []).active ≡ []
unfolding settle_children
settle_none [] = refl
settle_none (s ∷ rest) = settle_none rest

abbrev pub no_faults : Faults
no_faults = record {
  counts = false;
  claimable_after = false;
  active_running_after = false;
  delay = false;
}

-- A repository without jobs, whose lease is renewed and released, and a clock that advances. Nothing
-- throws.
pub record IsQuiet (host : CoordinatorHost) (started_at idle_from : ℕ) (clock : ℕ → ℕ)
    : Type 0 where
  pub started : host.started ≡ some started_at
  pub idle_started : host.idle_started ≡ some idle_from
  pub release : host.release_throws ≡ false
  pub faults : (k : ℕ) → (host.turn k).faults ≡ no_faults
  pub first : idle_from ≤ clock 0
  pub later : (k : ℕ) → clock k < clock (suc k)
  pub now : (k : ℕ) → (host.turn k).now ≡ some (clock k)
  pub renewal : (k : ℕ) → (attempt : ℕ) × ((host.turn k).renewal ≡ granted attempt)
  pub jobless :
      (k : ℕ)
      → ((host.turn k).claimable ≡ 0)
        × ((host.turn k).active_running ≡ 0)
        × ((host.turn k).claimable_after ≡ 0)
        × ((host.turn k).active_running_after ≡ 0)

module _ (settings : AnalysisWorkerSettings) (now : ℕ) (turn : CoordinatorTurn) (c : Coordinator)
    (none_active : c.active ≡ []) (claimable : turn.claimable ≡ 0)
    (running : turn.active_running ≡ 0) (sound : turn.faults ≡ no_faults) where
  see_no_work : see_work now turn c ≡ c
  unfolding see_work
  see_no_work = ground arith

  launch_none :
      ((launched_state settings now turn c).active ≡ [])
      × ((launched_state settings now turn c).idle_since ≡ c.idle_since)
      × ((launched_state settings now turn c).attempt ≡ c.attempt)
  unfolding launched_state launch_count launch_children
  launch_none = rw (none_active, claimable) (ground arith)

  launch_none-threw : (launch_turn settings turn c).threw ≡ false
  unfolding launch_count launch_children
  launch_none-threw = rw (none_active, claimable) (ground arith)

  -- A turn without work ends the loop, or leaves the idle time and no worker.
  quiet_work :
      1 ≤ settings.idle_timeout_ms
      → turn.claimable_after ≡ 0
      → turn.active_running_after ≡ 0
      → ((c.idle_since + settings.idle_timeout_ms ≤ now)
          × ((work settings now turn c).verdict ≡ returns idle_timeout c.attempt))
        ⊎ ((now < c.idle_since + settings.idle_timeout_ms)
            × (next : Coordinator) × ((work settings now turn c).verdict ≡ goes_on next)
            × (next.active ≡ [])
            × (next.idle_since ≡ c.idle_since))
  unfolding work wait is_idle
  quiet_work positive later_claimable later_running =
      let launched = launched_state settings now turn c in
      let (empty, since, attempt) = launch_none in
      let calm = launch_none-threw in
      elim (Bool-cases (leb (c.idle_since + settings.idle_timeout_ms) now)) [
        | inl t ↦ inl (
          ground (arith, t),
          rw see_no_work (ground (arith, t, empty, since, attempt, calm, sound)),
        )
        | inr f ↦ inr (
          ground (arith, f),
          record launched { active = (settle_children turn.settled launched.active).active },
          rw see_no_work (ground (arith, f, empty, since, calm, sound)),
          rw empty (settle_none turn.settled),
          since,
        )
      ]

renew_kept :
    (now : ℕ) (turn : CoordinatorTurn) (c : Coordinator) (attempt : ℕ)
    → turn.renewal ≡ granted attempt
    → (kept : Coordinator) × (renew now turn c ≡ keeps kept)
      × (kept.active ≡ c.active)
      × (kept.idle_since ≡ c.idle_since)
unfolding renew
renew_kept now turn c attempt h = elim (Bool-cases (leb c.next_renewal now)) [
  | inl t ↦ (
    record c { attempt = attempt; next_renewal = now + lease_renewal_ms },
    ground (arith, t, h),
    refl,
    refl,
  )
  | inr f ↦ (c, ground (arith, f), refl, refl)
]

coordinate-work :
    (settings : AnalysisWorkerSettings) (turn : CoordinatorTurn) (c : Coordinator) (now : ℕ)
    (kept : Coordinator)
    → turn.now ≡ some now
    → renew now turn c ≡ keeps kept
    → (coordinate settings turn c).verdict ≡ (work settings now turn kept).verdict
unfolding coordinate
coordinate-work settings turn c now kept f g = ground (arith, f, g)

module _ (settings : AnalysisWorkerSettings) (host : CoordinatorHost) (started_at idle_from : ℕ)
    (clock : ℕ → ℕ) (quiet : IsQuiet host started_at idle_from clock)
    (positive : 1 ≤ settings.idle_timeout_ms) where
  quiet_turn :
      (k : ℕ) (c : Coordinator)
      → c.active ≡ []
      → ((attempt : ℕ) × ((coordinate settings (host.turn k) c).verdict
            ≡ returns idle_timeout attempt))
        ⊎ ((clock k < c.idle_since + settings.idle_timeout_ms)
            × (next : Coordinator) × ((coordinate settings (host.turn k) c).verdict ≡ goes_on next)
            × (next.active ≡ [])
            × (next.idle_since ≡ c.idle_since))
  quiet_turn k c empty =
      let turn = host.turn k in
      let (attempt, answered) = quiet.renewal k in
      let (kept, renewed, same, since) = renew_kept (clock k) turn c attempt answered in
      let (no_jobs, no_running, none_after, no_running_after) = quiet.jobless k in
      let worked = coordinate-work settings turn c (clock k) kept (quiet.now k) renewed in
      elim (quiet_work settings (clock k) turn kept (same ∙ empty) no_jobs no_running
        (quiet.faults k) positive none_after no_running_after) [
          | inl done ↦ inl (kept.attempt, worked ∙ done.1)
          | inr (early, next, goes, idle, kept_since) ↦
              inr (omega (arith, since), next, worked ∙ goes, idle, kept_since ∙ since)
        ]

  quiet_turns :
      (fuel k x : ℕ) (c : Coordinator)
      → c.active ≡ []
      → c.idle_since + settings.idle_timeout_ms ≤ x + fuel
      → x ≤ clock k
      → (coordinate_turns settings host.turn (suc fuel) k c).outcome ≡ returned idle_timeout
  unfolding coordinate_turns
  quiet_turns zero k x c empty due reached = elim (quiet_turn k c empty) [
    | inl done ↦ ground (arith, done.1)
    | inr (early, next, goes, idle, since) ↦ absurd (omega (arith, early))
  ]
  quiet_turns (suc fuel) k x c empty due reached = elim (quiet_turn k c empty) [
    | inl done ↦ ground (arith, done.1)
    | inr (early, next, goes, idle, since) ↦
        let rest =
          quiet_turns fuel (suc k) (suc x) next idle (omega (arith, since))
            (let l = quiet.later k in omega arith) in
        ground (arith, goes, rest)
  ]

  -- A coordinator that gets the lease, whose renewals succeed, with no jobs, an advancing clock and
  -- no call that throws returns idle-timeout within as many turns as the idle timeout has
  -- milliseconds, and one.
  pub run_analysis_coordinator-quiet :
      (attempt : ℕ)
      → validate_settings settings ≡ ok tt
      → host.acquired ≡ granted attempt
      → (run_analysis_coordinator settings host (suc settings.idle_timeout_ms)).outcome
        ≡ returned idle_timeout
  unfolding run_analysis_coordinator
  run_analysis_coordinator-quiet attempt valid acquired =
      let started = quiet.started in
      let h =
        quiet_turns settings.idle_timeout_ms 0 idle_from (first_state attempt started_at idle_from)
          refl (omega arith) quiet.first in
      ground (arith, valid, acquired, started, quiet.idle_started, quiet.release, h)
