-- ===== src/Learning/Watchdog/Ends.antt =====
-- That the watchdog ends.
use agent_experience_agentic.Common.{
  ℕ, zero, suc, ◌+◌, ◌<◌, ◌≤◌, Bool, Option, none, some, ◌≡◌, ◌≢◌, refl, arith,
}
use agent_experience_agentic.Learning.Watchdog.{
  Turn, WatchdogHost, out_of_fuel, fuel_ended, Loop, beat, watch, conclude,
  run_analysis_worker_watchdog, watchdog_execution_limit_ms, loop_from,
}

-- The clock does not run backwards, and a delay takes at least a millisecond.
pub record IsAdvancing (host : WatchdogHost) : Type 0 where
  pub first : (s a : ℕ) → host.started ≡ some s → (host.turn 0).now ≡ some a → s ≤ a
  pub later : (k a b : ℕ) → (host.turn k).now ≡ some a → (host.turn (suc k)).now ≡ some b → a < b

module _ (turn : ℕ → Turn)
    (later : (k a b : ℕ) → (turn k).now ≡ some a → (turn (suc k)).now ≡ some b → a < b) where
  watch_ends :
      (fuel k deadline heartbeat x : ℕ)
      → ((a : ℕ) → (turn k).now ≡ some a → x ≤ a)
      → deadline ≤ x + fuel
      → (watch turn (suc fuel) k deadline heartbeat).exit ≢ fuel_ended
  unfolding watch beat
  watch_ends zero k deadline heartbeat x b l = read (turn k).now refl
    where
      read :
          (o : Option ℕ) → (turn k).now ≡ o → (watch turn 1 k deadline heartbeat).exit ≢ fuel_ended
      read none e = ground (arith, e)
      read (some now) e = let m = b now e in ground (arith, e)
  watch_ends (suc fuel) k deadline heartbeat x b l =
      read (turn k).now refl
        (λ now e m h. watch_ends fuel (suc k) deadline h (suc now) (λ a f. later k now a e f) m)
    where
      read :
          (o : Option ℕ)
          → (turn k).now ≡ o
          → ((now : ℕ)
              → (turn k).now ≡ some now
              → deadline ≤ suc now + fuel
              → (h : ℕ) → (watch turn (suc fuel) (suc k) deadline h).exit ≢ fuel_ended)
          → (watch turn (suc (suc fuel)) k deadline heartbeat).exit ≢ fuel_ended
      read none e rest = ground (arith, e)
      read (some now) e rest =
          let m = b now e in
          let ih = rest now e (omega arith) in ground (arith, e, ih heartbeat, ih (now + 5000))

conclude_ends :
    (terminates : Bool) (loop : Loop)
    → loop.exit ≢ fuel_ended
    → (conclude terminates loop).ending ≢ out_of_fuel
unfolding conclude
conclude_ends terminates loop h = ground (arith, h)

-- If each reading of the clock in a turn is later than the one of the turn before, and the first is
-- not before the start, the watchdog ends within the turns that the execution limit has
-- milliseconds, and one.
pub run_analysis_worker_watchdog-ends :
    (host : WatchdogHost)
    → IsAdvancing host
    → (run_analysis_worker_watchdog host).ending ≢ out_of_fuel
unfolding run_analysis_worker_watchdog
run_analysis_worker_watchdog-ends host h = start host.started refl
  where
    loop_ends : (o : Option ℕ) → host.started ≡ o → (loop_from host).exit ≢ fuel_ended
    loop_ends none e = ground (arith, e)
    loop_ends (some s) e = rw e (
        watch_ends host.turn h.later watchdog_execution_limit_ms 0 (s + watchdog_execution_limit_ms)
          (s + 5000) s (λ a f. h.first s a e f) (omega arith))

    start :
        (o : Option ℕ) → host.started ≡ o → (run_analysis_worker_watchdog host).ending ≢ out_of_fuel
    start o e =
        let ends = conclude_ends host.terminates (loop_from host) (loop_ends o e) in
        ground (arith, ends)
