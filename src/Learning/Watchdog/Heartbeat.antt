-- ===== src/Learning/Watchdog/Heartbeat.antt =====
-- That the watchdog renews the lease of its slot with each heartbeat.
use agent_experience_agentic.Common.{
  ℕ, zero, suc, ◌+◌, ◌<◌, ◌≤◌, List, [], ◌∷◌, ◌++◌, Bool, Option, none, some, leb, ◌≡◌, refl, arith,
  inl, inr, Bool-cases,
}
use agent_experience_agentic.Learning.Watchdog.{
  Turn, WatchdogHost, Call, renew, delay, terminate, release, abort, Loop, beat, watch, wait_ms,
  conclude, run_analysis_worker_watchdog, loop_from, watchdog_heartbeat_ms,
}

-- Where the last heartbeat was at `last`: a renewal is not early, and the loop waits only while none
-- is due, for at least a millisecond, and not beyond the time of the next.
abbrev pub IsBeating : (last : ℕ) → List Call → Type 0
IsBeating last [] = Unit {0}
IsBeating last (renew at ∷ calls) = (last + watchdog_heartbeat_ms ≤ at) × IsBeating at calls
IsBeating last (delay at ms ∷ calls) =
    (at + ms ≤ last + watchdog_heartbeat_ms) × (1 ≤ ms) × IsBeating last calls
IsBeating last (terminate ∷ calls) = IsBeating last calls
IsBeating last (release ∷ calls) = IsBeating last calls
IsBeating last (abort ∷ calls) = IsBeating last calls

-- The wait ends by the next heartbeat.
wait_ms_bounds :
    (deadline heartbeat now : ℕ)
    → now < heartbeat
    → (now + wait_ms deadline heartbeat now ≤ heartbeat) × (1 ≤ wait_ms deadline heartbeat now)
unfolding wait_ms
wait_ms_bounds deadline heartbeat now h = ground (arith, h)

watch-IsBeating :
    (turn : ℕ → Turn) (fuel k deadline last : ℕ)
    → IsBeating last (watch turn fuel k deadline (last + 5000)).calls
unfolding watch beat
watch-IsBeating turn zero k deadline last = tt
watch-IsBeating turn (suc fuel) k deadline last =
    read (turn k).now refl (watch-IsBeating turn fuel (suc k) deadline)
  where
    read :
        (o : Option ℕ)
        → (turn k).now ≡ o
        → ((l : ℕ) → IsBeating l (watch turn fuel (suc k) deadline (l + 5000)).calls)
        → IsBeating last (watch turn (suc fuel) k deadline (last + 5000)).calls
    read none e rest = ground (arith, e)
    read (some now) e rest = elim (Bool-cases (leb (last + 5000) now)) [
      | inl t ↦
          let on = rest now in
          let (short, some_time) = wait_ms_bounds deadline (now + 5000) now (omega arith) in
          ground (arith, e, t, on, short, some_time)
      | inr f ↦
          let on = rest last in
          let before : now < last + 5000 = ground (arith, f) in
          let (short, some_time) = wait_ms_bounds deadline (last + 5000) now before in
          ground (arith, e, f, on, short, some_time)
    ]

IsBeating-append :
    (last : ℕ) (xs ys : List Call)
    → ((l : ℕ) → IsBeating l ys)
    → IsBeating last xs
    → IsBeating last (xs ++ ys)
IsBeating-append last [] ys h k = h last
IsBeating-append last (renew at ∷ xs) ys h k = (k.0, IsBeating-append at xs ys h k.1)
IsBeating-append last (delay _ _ ∷ xs) ys h k = (k.0, k.1, IsBeating-append last xs ys h k.2)
IsBeating-append last (terminate ∷ xs) ys h k = IsBeating-append last xs ys h k
IsBeating-append last (release ∷ xs) ys h k = IsBeating-append last xs ys h k
IsBeating-append last (abort ∷ xs) ys h k = IsBeating-append last xs ys h k

conclude-IsBeating :
    (last : ℕ) (terminates : Bool) (loop : Loop)
    → IsBeating last loop.calls
    → IsBeating last (conclude terminates loop).calls
unfolding conclude
conclude-IsBeating last terminates loop h =
    let once = IsBeating-append last loop.calls (terminate ∷ []) (λ l. tt) h in
    ground (
      arith,
      h,
      IsBeating-append last loop.calls (release ∷ []) (λ l. tt) h,
      IsBeating-append last loop.calls (terminate ∷ abort ∷ []) (λ l. tt) h,
      IsBeating-append last (loop.calls ++ (terminate ∷ [])) (release ∷ []) (λ l. tt) once,
    )

-- Once its clock is read, the watchdog waits only while less than the 5 seconds of a heartbeat have
-- passed since the start or the last renewal of its slot, each wait is of at least a millisecond
-- and ends by the time of the next heartbeat, and no renewal comes before its heartbeat is due.
pub run_analysis_worker_watchdog-IsBeating :
    (host : WatchdogHost) (started_at : ℕ)
    → host.started ≡ some started_at
    → IsBeating started_at (run_analysis_worker_watchdog host).calls
unfolding run_analysis_worker_watchdog
run_analysis_worker_watchdog-IsBeating host started_at started =
    let loop = watch-IsBeating host.turn 30001 0 (started_at + 30000) started_at in
    let ends = conclude-IsBeating started_at host.terminates (loop_from host) (rw started loop) in
    ground (arith, ends)
