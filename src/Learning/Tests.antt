-- ===== src/Learning/Tests.antt =====
-- A worker that completes in the fourth turn of its watchdog.
use Prim.Native.Nat.{◌*◌}
use agent_experience_agentic.Common.{
  ℕ, ◌+◌, some, none, true, leb, if◌then◌else◌, ◌≡◌, ◌≢◌, ◌⊎◌, refl, arith,
}
use agent_experience_agentic.Learning.Watchdog.{
  Turn, WatchdogHost, renewed, returned, completed, out_of_fuel, run_analysis_worker_watchdog,
  watch, beat, conclude,
}
use agent_experience_agentic.Learning.Watchdog.Ends.{IsAdvancing, run_analysis_worker_watchdog-ends}
use agent_experience_agentic.Learning.Watchdog.Slot.{
  releases, terminations, run_analysis_worker_watchdog-releases,
  run_analysis_worker_watchdog-terminates,
}
use agent_experience_agentic.Learning.Watchdog.Heartbeat.{
  IsBeating, run_analysis_worker_watchdog-IsBeating,
}

abbrev turn : ℕ → Turn
turn k = record {
  completion = if leb 3 k then some 7 else none;
  now = some (1000 + 3000 * k);
  renewal = renewed;
  delays = true;
}

abbrev host : WatchdogHost
host = record {
  entry = renewed;
  spawns = true;
  started = some 1000;
  turn = turn;
  terminates = true;
}

ending : (run_analysis_worker_watchdog host).ending ≡ returned (completed 7)
unfolding run_analysis_worker_watchdog watch beat conclude
ending = refl

host-IsAdvancing : IsAdvancing host
host-IsAdvancing = record { first = λ s a h k. ground arith; later = λ k a b h i. ground arith }

run_analysis_worker_watchdog-ends_example : (run_analysis_worker_watchdog host).ending ≢ out_of_fuel
run_analysis_worker_watchdog-ends_example = run_analysis_worker_watchdog-ends host host-IsAdvancing

run_analysis_worker_watchdog-releases_example :
    releases (run_analysis_worker_watchdog host).calls ≡ 1
unfolding run_analysis_worker_watchdog watch beat conclude
run_analysis_worker_watchdog-releases_example = run_analysis_worker_watchdog-releases host

run_analysis_worker_watchdog-terminates_example :
    ((code : ℕ) × (completed 7 ≡ completed code))
    ⊎ (terminations (run_analysis_worker_watchdog host).calls ≡ 1)
run_analysis_worker_watchdog-terminates_example =
    run_analysis_worker_watchdog-terminates host refl refl {r = completed 7} ending

-- The worker is renewed in the second of these turns.
run_analysis_worker_watchdog-IsBeating_example :
    IsBeating 1000 (run_analysis_worker_watchdog host).calls
run_analysis_worker_watchdog-IsBeating_example =
    run_analysis_worker_watchdog-IsBeating host 1000 refl
