-- ===== src/Learning/CoordinatorTests.antt =====
-- A coordinator that starts two workers, and one that has nothing to do.
use Prim.Native.Nat.{◌*◌}
use mathlib.Core.Path.{subst}
use agent_experience_agentic.Common.{
  ℕ, false, true, ◌<◌, ◌+◌, ◌≤◌, [], ◌∷◌, some, none, ok, ◌≡◌, refl, arith,
}
use agent_experience_agentic.Learning.Settings.{AnalysisWorkerSettings, validate_settings}
use agent_experience_agentic.Learning.Watchdog.{poll_interval_ms}
use agent_experience_agentic.Learning.Coordinator.{
  no_slot, spawned, granted, delay_for, release_lease, renew_lease, wait, settle_calls,
  CoordinatorTurn, Coordinator, exits, idle_timeout, returns, goes_on, coordinate, renew, work,
  see_work, launched_state, launch_count, launch_children, settle_children, is_idle, next_wait,
}
use agent_experience_agentic.Learning.Coordinator.Run.{
  CoordinatorHost, returned, first_state, coordinate_turns, run_analysis_coordinator,
}
use agent_experience_agentic.Learning.Coordinator.Bounds.{next_wait_bounds}
use agent_experience_agentic.Learning.Coordinator.Reachable.{Reachable, validate_settings-active}
use agent_experience_agentic.Learning.Coordinator.Quiet.{
  IsQuiet, no_faults, run_analysis_coordinator-quiet,
}
use agent_experience_agentic.Learning.Coordinator.Lease.{
  IsReleased, has_ended, run_analysis_coordinator-IsReleased,
}
use agent_experience_agentic.Learning.Coordinator.Renewals.{Renewed, last_renewal, Renewed-current}

abbrev settings : AnalysisWorkerSettings
settings = record { version = 1; max_processes = 2; idle_timeout_ms = 1000 }

valid : validate_settings settings ≡ ok tt
unfolding validate_settings
valid = refl

-- Five jobs, and the first worker has finished by the second turn.
abbrev busy : ℕ → CoordinatorTurn
busy k = record {
  now = some (100 + k);
  renewal = granted 1;
  claimable = 5;
  active_running = 0;
  next_retry_at = none;
  launch = spawned;
  claimable_after = 3;
  active_running_after = 2;
  settled = record { slot = 0; child_end = exits 0 } ∷ [];
  faults = no_faults;
}

abbrev after_busy : Coordinator
after_busy = record { attempt = 1; next_renewal = 5100; idle_since = 100; active = 1 ∷ [] }

busy_turn : (coordinate settings (busy 0) (first_state 1 100 100)).verdict ≡ goes_on after_busy
unfolding coordinate renew work wait see_work launched_state launch_count launch_children
    settle_children is_idle
busy_turn = refl

busy_calls : last_renewal 99 (coordinate settings (busy 0) (first_state 1 100 100)).calls ≡ 99
unfolding coordinate renew work wait see_work launched_state launch_count launch_children is_idle
    settle_children settle_calls
busy_calls = refl

busy-Renewed :
    last_renewal 99 (coordinate settings (busy 0) (first_state 1 100 100)).calls ≡ 99
    → Renewed settings busy 1 99 100 100 1 after_busy 99
busy-Renewed e =
    subst (Renewed settings busy 1 99 100 100 1 after_busy) e
      (Renewed.later Renewed.first busy_turn)

validate_settings-active_example : (1 ≤ 2) × (1 ≤ 16)
validate_settings-active_example =
    validate_settings-active settings busy 1 100 100 valid {k = 1} {c = after_busy}
      (Reachable.later Reachable.first busy_turn)

Renewed-current_example : 101 < 99 + 10000
Renewed-current_example =
    Renewed-current settings busy 1 99 100 100 1 (omega arith) 3 (omega arith)
      (λ a h. ground (arith, h)) (λ k a b h i. ground (arith, h, i)) {k = 1} {c = after_busy}
      {at = 99} (busy-Renewed busy_calls) {a = 101} refl

next_wait_bounds_example :
    (1 ≤ next_wait 100 5100 1100 (some 160))
    × (next_wait 100 5100 1100 (some 160) ≤ poll_interval_ms)
next_wait_bounds_example = next_wait_bounds 100 5100 1100 (some 160)

abbrev quiet_turn : ℕ → CoordinatorTurn
quiet_turn k = record {
  now = some (100 + 600 * k);
  renewal = granted 1;
  claimable = 0;
  active_running = 0;
  next_retry_at = none;
  launch = λ i. no_slot;
  claimable_after = 0;
  active_running_after = 0;
  settled = [];
  faults = no_faults;
}

abbrev quiet_host : CoordinatorHost
quiet_host = record {
  acquired = granted 1;
  started = some 100;
  idle_started = some 100;
  release_throws = false;
  turn = quiet_turn;
}

quiet_host-IsQuiet : IsQuiet quiet_host 100 100 (λ k. 100 + 600 * k)
quiet_host-IsQuiet = record {
  started = refl;
  idle_started = refl;
  release = refl;
  faults = λ k. refl;
  first = omega arith;
  later = λ k. omega arith;
  now = λ k. refl;
  renewal = λ k. (1, refl);
  jobless = λ k. (refl, refl, refl, refl);
}

run_analysis_coordinator-quiet_example :
    (run_analysis_coordinator settings quiet_host 1001).outcome ≡ returned idle_timeout
run_analysis_coordinator-quiet_example =
    run_analysis_coordinator-quiet settings quiet_host 100 100 (λ k. 100 + 600 * k)
      quiet_host-IsQuiet (omega arith) 1 valid refl

-- The first turn renews the lease, and its delay rejects.
abbrev broken_turn : CoordinatorTurn
broken_turn = record (quiet_turn 0) {
  now = some 5200;
  renewal = granted 2;
  active_running = 1;
  faults = record no_faults { delay = true };
}

abbrev broken_host : CoordinatorHost
broken_host = record quiet_host { turn = λ k. broken_turn }

broken_run :
    (run_analysis_coordinator settings broken_host 4).calls
    ≡ renew_lease 5200 2 ∷ delay_for 250 ∷ release_lease 2 ∷ []
unfolding run_analysis_coordinator coordinate_turns validate_settings coordinate renew work wait
    see_work launched_state launch_count launch_children settle_children is_idle next_wait
broken_run = refl

run_analysis_coordinator-IsReleased_example :
    IsReleased
      (has_ended (run_analysis_coordinator settings broken_host 4).outcome)
      1
      (run_analysis_coordinator settings broken_host 4).calls
run_analysis_coordinator-IsReleased_example =
    run_analysis_coordinator-IsReleased settings broken_host 4 1 100 100 valid refl refl refl

idle_turn :
    (coordinate settings (quiet_turn 2) (first_state 1 100 100)).verdict ≡ returns idle_timeout 1
unfolding coordinate renew work wait see_work launched_state launch_count launch_children
    settle_children is_idle
idle_turn = refl
