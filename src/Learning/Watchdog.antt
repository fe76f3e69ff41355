-- ===== src/Learning/Watchdog.antt =====
-- runAnalysisWorkerWatchdog of src/learning/worker.ts: one worker thread under a deadline, and the
-- lease of its slot. What the host and the repository answer is a `WatchdogHost`: a turn of the
-- loop has whether the worker has completed when the turn begins, and what the calls of the turn
-- give (the first turn of a real run has no completion, since it begins before the callback can run).
-- A call that may throw has an answer for it; releaseWorkerSlot is taken not to throw.
pub mod Ends
pub mod Slot
pub mod Heartbeat
use agent_experience_agentic.Common.{
  ℕ, zero, suc, ◌+◌, ◌-◌, List, [], ◌∷◌, ◌++◌, Bool, true, false, Option, none, some, leb,
  if◌then◌else◌,
}

abbrev pub worker_slot_lease_ms : ℕ
worker_slot_lease_ms = 45000

abbrev pub watchdog_heartbeat_ms : ℕ
watchdog_heartbeat_ms = 5000

abbrev pub watchdog_execution_limit_ms : ℕ
watchdog_execution_limit_ms = 30000

abbrev pub poll_interval_ms : ℕ
poll_interval_ms = 250

pub data Renewal : Type 0 where
  renewed refused throws : Renewal

pub record Turn : Type 0 where
  pub completion : Option ℕ
  pub now : Option ℕ
  pub renewal : Renewal
  pub delays : Bool

pub record WatchdogHost : Type 0 where
  pub entry : Renewal
  pub spawns : Bool
  pub started : Option ℕ
  pub turn : ℕ → Turn
  pub terminates : Bool

pub data AnalysisWatchdogResult : Type 0 where
  completed : (exit_code : ℕ) → AnalysisWatchdogResult
  lease_lost timed_out launch_failed : AnalysisWatchdogResult

-- How the call ends: it returns, it throws, or the process aborts. The model alone has the last.
pub data Ending : Type 0 where
  returned : AnalysisWatchdogResult → Ending
  threw aborted out_of_fuel : Ending

-- The calls that change the repository or the worker, and the delays, those of the loop with the
-- time that its turn has read.
pub data Call : Type 0 where
  renew : (at : ℕ) → Call
  delay : (at ms : ℕ) → Call
  terminate release abort : Call

pub record Watch : Type 0 where
  pub ending : Ending
  pub calls : List Call

-- Why the loop is left; `failed` has whether the worker has completed.
pub data Exit : Type 0 where
  worker_completed : (exit_code : ℕ) → Exit
  stopped : AnalysisWatchdogResult → Exit
  failed : Bool → Exit
  fuel_ended : Exit

pub record Loop : Type 0 where
  pub exit : Exit
  pub calls : List Call

-- The deadline and the heartbeat of one turn.
pub data Beat : Type 0 where
  past_deadline lost broken : Beat
  quiet : Beat
  beaten : Beat

abbrev pub beat_of : Renewal → Beat
beat_of renewed = beaten
beat_of refused = lost
beat_of throws = broken

unfoldable pub beat : (deadline next_heartbeat now : ℕ) → Renewal → Beat
beat deadline next_heartbeat now renewal =
    if leb deadline now
    then past_deadline
    else if leb next_heartbeat now
    then beat_of renewal
    else quiet

abbrev pub min : ℕ → ℕ → ℕ
min a b = if leb a b then a else b

abbrev pub max : ℕ → ℕ → ℕ
max a b = if leb a b then b else a

-- The argument of `host.delay`, where `now` is before the deadline.
unfoldable pub wait_ms : (deadline next_heartbeat now : ℕ) → ℕ
wait_ms deadline next_heartbeat now =
    max 1 (min poll_interval_ms (min (deadline - now) (next_heartbeat - now)))

abbrev pub after : Call → Loop → Loop
after call loop = record loop { calls = call ∷ loop.calls }

abbrev pub left : Exit → Loop
left exit = record { exit = exit; calls = [] }

abbrev pub has_completed : Turn → Bool
has_completed turn = elim turn.completion [ none ↦ false | some _ ↦ true ]

-- The `while` loop from a turn on.
unfoldable pub watch : (turn : ℕ → Turn) (fuel number deadline next_heartbeat : ℕ) → Loop
watch turn zero number deadline next_heartbeat = left fuel_ended
watch turn (suc fuel) number deadline next_heartbeat = elim (turn number).completion [
  | some exit_code ↦ left (worker_completed exit_code)
  | none ↦ elim (turn number).now [
    | none ↦ left (failed false)
    | some now ↦ elim (beat deadline next_heartbeat now (turn number).renewal) [
      | past_deadline ↦ left (stopped timed_out)
      | lost ↦ left (stopped lease_lost)
      | broken ↦ left (failed false)
      | beaten ↦
          let heartbeat = now + watchdog_heartbeat_ms in
          after (renew now) (
            after (delay now (wait_ms deadline heartbeat now)) (elim (turn number).delays [
              | true ↦ watch turn fuel (suc number) deadline heartbeat
              | false ↦ left (failed (has_completed (turn (suc number))))
            ]))
      | quiet ↦ after (delay now (wait_ms deadline next_heartbeat now)) (elim (turn number).delays [
        | true ↦ watch turn fuel (suc number) deadline next_heartbeat
        | false ↦ left (failed (has_completed (turn (suc number))))
      ])
    ]
  ]
]

abbrev pub finished : List Call → Ending → Watch
finished calls ending = record { ending = ending; calls = calls ++ (release ∷ []) }

-- The code after the loop, for a worker that has not completed.
abbrev pub stop_worker : Bool → List Call → Ending → Watch
stop_worker true calls ending = finished (calls ++ (terminate ∷ [])) ending
stop_worker false calls ending = record {
  ending = aborted;
  calls = calls ++ (terminate ∷ abort ∷ []);
}

unfoldable pub conclude : Bool → Loop → Watch
conclude terminates loop = elim loop.exit [
  | worker_completed exit_code ↦ finished loop.calls (returned (completed exit_code))
  | stopped result ↦ stop_worker terminates loop.calls (returned result)
  | failed true ↦ finished loop.calls threw
  | failed false ↦ stop_worker terminates loop.calls threw
  | fuel_ended ↦ record { ending = out_of_fuel; calls = loop.calls }
]

-- The loop of a worker that is started; a clock that throws is a failure of the control.
abbrev pub loop_from : WatchdogHost → Loop
loop_from host = elim host.started [
  | none ↦ left (failed false)
  | some started_at ↦
      watch host.turn (suc watchdog_execution_limit_ms) 0 (started_at + watchdog_execution_limit_ms)
        (started_at + watchdog_heartbeat_ms)
]

unfoldable pub run_analysis_worker_watchdog : WatchdogHost → Watch
run_analysis_worker_watchdog host = elim host.entry [
  | refused ↦ record { ending = returned lease_lost; calls = [] }
  | throws ↦ record { ending = threw; calls = [] }
  | renewed ↦ elim host.spawns [
    | false ↦ record { ending = returned launch_failed; calls = release ∷ [] }
    | true ↦ conclude host.terminates (loop_from host)
  ]
]
