-- ===== src/Learning/Watchdog/Slot.antt =====
-- What the watchdog does with the slot and the worker.
use agent_experience_agentic.Common.{
  ℕ, zero, suc, ◌+◌, List, [], ◌∷◌, ◌++◌, Bool, true, Option, none, some, ◌≡◌, ◌⊎◌, inl, inr, refl,
  arith,
}
use agent_experience_agentic.Learning.Watchdog.{
  Turn, WatchdogHost, Renewal, renewed, refused, throws, AnalysisWatchdogResult, completed, Ending,
  returned, threw, aborted, out_of_fuel, Call, renew, delay, terminate, release, abort, Exit,
  worker_completed, stopped, failed, fuel_ended, Loop, watch, conclude,
  run_analysis_worker_watchdog, loop_from,
}

-- How often the slot is released.
abbrev pub releases : List Call → ℕ
releases [] = 0
releases (release ∷ calls) = suc (releases calls)
releases (terminate ∷ calls) = releases calls
releases (abort ∷ calls) = releases calls
releases (renew _ ∷ calls) = releases calls
releases (delay _ _ ∷ calls) = releases calls

abbrev pub terminations : List Call → ℕ
terminations [] = 0
terminations (terminate ∷ calls) = suc (terminations calls)
terminations (release ∷ calls) = terminations calls
terminations (abort ∷ calls) = terminations calls
terminations (renew _ ∷ calls) = terminations calls
terminations (delay _ _ ∷ calls) = terminations calls

-- How often the slot has to be released.
abbrev pub due_releases : Renewal → Ending → ℕ
due_releases renewed aborted = 0
due_releases renewed out_of_fuel = 0
due_releases renewed (returned _) = 1
due_releases renewed threw = 1
due_releases refused _ = 0
due_releases throws _ = 0

releases-append : (xs ys : List Call) → releases (xs ++ ys) ≡ releases xs + releases ys
releases-append [] ys = omega arith
releases-append (x ∷ xs) ys = let ih = releases-append xs ys in ground (arith, ih)

terminations-append :
    (xs ys : List Call) → terminations (xs ++ ys) ≡ terminations xs + terminations ys
terminations-append [] ys = omega arith
terminations-append (x ∷ xs) ys = let ih = terminations-append xs ys in ground (arith, ih)

-- The loop neither releases the slot nor terminates the worker.
watch_spares :
    (turn : ℕ → Turn) (fuel k deadline heartbeat : ℕ)
    → (releases (watch turn fuel k deadline heartbeat).calls ≡ 0)
      × (terminations (watch turn fuel k deadline heartbeat).calls ≡ 0)
unfolding watch
watch_spares turn zero k deadline heartbeat = (refl, refl)
watch_spares turn (suc fuel) k deadline heartbeat =
    read (turn k).now refl (watch_spares turn fuel (suc k) deadline)
  where
    read :
        (o : Option ℕ)
        → (turn k).now ≡ o
        → ((h : ℕ)
            → (releases (watch turn fuel (suc k) deadline h).calls ≡ 0)
              × (terminations (watch turn fuel (suc k) deadline h).calls ≡ 0))
        → (releases (watch turn (suc fuel) k deadline heartbeat).calls ≡ 0)
          × (terminations (watch turn (suc fuel) k deadline heartbeat).calls ≡ 0)
    read none e rest = ground (arith, e)
    read (some now) e rest = ground (arith, e, rest heartbeat, rest (now + 5000))

loop_spares :
    (host : WatchdogHost)
    → (releases (loop_from host).calls ≡ 0) × (terminations (loop_from host).calls ≡ 0)
loop_spares host = start host.started refl
  where
    start :
        (o : Option ℕ)
        → host.started ≡ o
        → (releases (loop_from host).calls ≡ 0) × (terminations (loop_from host).calls ≡ 0)
    start none e = rw e (refl, refl)
    start (some s) e = rw e (watch_spares host.turn 30001 0 (s + 30000) (s + 5000))

releases-conclude :
    (terminates : Bool) (loop : Loop)
    → releases loop.calls ≡ 0
    → releases (conclude terminates loop).calls
      ≡ due_releases renewed (conclude terminates loop).ending
unfolding conclude
releases-conclude terminates loop h = ground (
  arith,
  h,
  releases-append loop.calls (release ∷ []),
  releases-append loop.calls (terminate ∷ []),
  releases-append (loop.calls ++ (terminate ∷ [])) (release ∷ []),
  releases-append loop.calls (terminate ∷ abort ∷ []),
)

-- After a successful first renewal the watchdog releases its slot exactly once however it returns
-- or throws, and never when the process aborts or the first renewal failed.
pub run_analysis_worker_watchdog-releases :
    (host : WatchdogHost)
    → releases (run_analysis_worker_watchdog host).calls
      ≡ due_releases host.entry (run_analysis_worker_watchdog host).ending
unfolding run_analysis_worker_watchdog
run_analysis_worker_watchdog-releases host =
    let spared = loop_spares host in
    let done = releases-conclude host.terminates (loop_from host) spared.0 in ground (arith, done)

conclude_terminates :
    (terminates : Bool) (loop : Loop)
    → terminations loop.calls ≡ 0
    → {r : AnalysisWatchdogResult} → (conclude terminates loop).ending ≡ returned r
    → ((code : ℕ) × (r ≡ completed code)) ⊎ (terminations (conclude terminates loop).calls ≡ 1)
unfolding conclude
conclude_terminates terminates loop h {r} e =
    let once = terminations-append loop.calls (terminate ∷ []) in
    let last = terminations-append (loop.calls ++ (terminate ∷ [])) (release ∷ []) in
    by_exit loop.exit refl once last
  where
    by_exit :
        (x : Exit)
        → loop.exit ≡ x
        → terminations (loop.calls ++ (terminate ∷ []))
          ≡ terminations loop.calls + terminations (terminate ∷ [])
        → terminations ((loop.calls ++ (terminate ∷ [])) ++ (release ∷ []))
          ≡ terminations (loop.calls ++ (terminate ∷ [])) + terminations (release ∷ [])
        → ((code : ℕ) × (r ≡ completed code)) ⊎ (terminations (conclude terminates loop).calls ≡ 1)
    by_exit (worker_completed code) x once last = inl (code, ground arith)
    by_exit (stopped result) x once last = inr (ground (arith, x, once, last, e))
    by_exit (failed b) x once last = absurd (ground (arith, x, e))
    by_exit fuel_ended x once last = absurd (ground (arith, x, e))

-- A watchdog that has started its worker and returns either reports that the worker completed or
-- has terminated it exactly once.
pub run_analysis_worker_watchdog-terminates :
    (host : WatchdogHost)
    → host.entry ≡ renewed
    → host.spawns ≡ true
    → {r : AnalysisWatchdogResult} → (run_analysis_worker_watchdog host).ending ≡ returned r
    → ((code : ℕ) × (r ≡ completed code))
      ⊎ (terminations (run_analysis_worker_watchdog host).calls ≡ 1)
unfolding run_analysis_worker_watchdog
run_analysis_worker_watchdog-terminates host entered spawned {r} e =
    rw (entered, spawned)
      (conclude_terminates host.terminates (loop_from host) (loop_spares host).1
        (rw (entered, spawned) at e))
