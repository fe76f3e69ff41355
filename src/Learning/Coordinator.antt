-- ===== src/Learning/Coordinator.antt =====
-- runAnalysisCoordinator of src/learning/worker.ts: the loop that starts workers while there are
-- jobs, under a lease. A `CoordinatorTurn` has what the clock and the repository answer in one turn
-- of the loop, and how children settle during its delay; a child is known by its slot. Each call
-- of the loop may throw; only those in the callbacks of a child, whose promise nobody awaits, are
-- taken not to. A clock that gives no finite number throws.
pub mod Run
pub mod Bounds
pub mod Reachable
pub mod Idle
pub mod Quiet
pub mod Plain
pub mod Lease
pub mod Renewals
use agent_experience_agentic.Common.{
  ℕ, zero, suc, ◌+◌, ◌-◌, List, [], ◌∷◌, ◌++◌, Bool, true, false, not, ◌&&◌, ◌||◌, Option, none,
  some, Result, ok, err, leb, ltb, nat_eq, if◌then◌else◌, length, filter,
}
use agent_experience_agentic.Learning.Settings.{AnalysisWorkerSettings, validate_settings}
use agent_experience_agentic.Learning.Watchdog.{poll_interval_ms, min, max}

abbrev pub coordinator_lease_ms : ℕ
coordinator_lease_ms = 10000

abbrev pub lease_renewal_ms : ℕ
lease_renewal_ms = 5000

abbrev pub Slot : Type 0
Slot = ℕ

-- The last two are a spawn that throws, where giving the slot back or recording throws as well.
pub data Launch : Type 0 where
  no_slot reserve_throws : Launch
  spawned : Slot → Launch
  spawn_throws : Slot → Launch
  release_throws : Slot → Launch
  record_throws : Slot → Launch

-- What acquireCoordinatorLease or renewCoordinatorLease does.
pub data LeaseAnswer : Type 0 where
  granted : (attempt : ℕ) → LeaseAnswer
  refused throws : LeaseAnswer

-- Which calls of a turn throw: those before the launches, the two after them, and the delay.
pub record Faults : Type 0 where
  pub counts : Bool
  pub claimable_after : Bool
  pub active_running_after : Bool
  pub delay : Bool

-- How the promise of a child settles.
pub data ChildEnd : Type 0 where
  exits : (exit_code : ℕ) → ChildEnd
  rejects : ChildEnd

pub record Settled : Type 0 where
  pub slot : Slot
  pub child_end : ChildEnd

pub record CoordinatorTurn : Type 0 where
  pub now : Option ℕ
  pub renewal : LeaseAnswer
  pub claimable : ℕ
  pub active_running : ℕ
  pub next_retry_at : Option ℕ
  pub launch : ℕ → Launch
  pub claimable_after : ℕ
  pub active_running_after : ℕ
  pub settled : List Settled
  pub faults : Faults

pub data CoordinatorStatus : Type 0 where
  idle_timeout lease_held : CoordinatorStatus

pub data AnalysisDiagnostic : Type 0 where
  coordinator_launch_failed child_process_failed : AnalysisDiagnostic

-- The calls that change the repository, the launches and the delays; a renewal that is granted.
pub data CoordinatorCall : Type 0 where
  renew_lease : (at attempt : ℕ) → CoordinatorCall
  spawn_child : Slot → CoordinatorCall
  release_slot : Slot → CoordinatorCall
  record_diagnostic : AnalysisDiagnostic → CoordinatorCall
  delay_for : (ms : ℕ) → CoordinatorCall
  release_lease : (attempt : ℕ) → CoordinatorCall

pub record Coordinator : Type 0 where
  pub attempt : ℕ
  pub next_renewal : ℕ
  pub idle_since : ℕ
  pub active : List Slot

abbrev pub is_none_active : List Slot → Bool
is_none_active [] = true
is_none_active (_ ∷ _) = false

-- `nextWait`, where the time to retry is a finite number.
unfoldable pub next_wait : (now renewal_at idle_at : ℕ) → Option ℕ → ℕ
next_wait now renewal_at idle_at next_retry_at =
    let boundaries =
      min (max 1 poll_interval_ms) (min (max 1 (renewal_at - now)) (max 1 (idle_at - now))) in
    elim next_retry_at [
      | none ↦ max 1 boundaries
      | some retry_at ↦
          if ltb now retry_at
          then max 1 (min boundaries (max 1 (retry_at - now)))
          else max 1 boundaries
    ]

pub record Launched : Type 0 where
  pub threw : Bool
  pub active : List Slot
  pub calls : List CoordinatorCall

abbrev after_calls : List CoordinatorCall → Launched → Launched
after_calls calls launched = record launched { calls = calls ++ launched.calls }

abbrev pub launched_so_far : Bool → List Slot → List CoordinatorCall → Launched
launched_so_far threw active calls = record { threw = threw; active = active; calls = calls }

-- The `for` loop over the launches.
unfoldable pub launch_children :
    (launch : ℕ → Launch) (count index : ℕ) (active : List Slot) → Launched
launch_children launch zero index active = launched_so_far false active []
launch_children launch (suc count) index active = elim (launch index) [
  | no_slot ↦ launched_so_far false active []
  | reserve_throws ↦ launched_so_far true active []
  | spawned slot ↦
      after_calls (spawn_child slot ∷ []) (launch_children launch count (suc index) (slot ∷ active))
  | spawn_throws slot ↦
      after_calls (release_slot slot ∷ record_diagnostic coordinator_launch_failed ∷ [])
        (launch_children launch count (suc index) active)
  | release_throws slot ↦ launched_so_far true active (release_slot slot ∷ [])
  | record_throws slot ↦
      launched_so_far true active
        (release_slot slot ∷ record_diagnostic coordinator_launch_failed ∷ [])
]

-- The callbacks of the promise of a child.
unfoldable pub settle_calls : Settled → List CoordinatorCall
settle_calls settled = elim settled.child_end [
  | exits exit_code ↦ if nat_eq exit_code 0 then [] else record_diagnostic child_process_failed ∷ []
  | rejects ↦ release_slot settled.slot ∷ record_diagnostic coordinator_launch_failed ∷ []
]

-- `active.delete`.
abbrev pub delete : Slot → List Slot → List Slot
delete slot active = filter (λ s. not (nat_eq s slot)) active

unfoldable pub settle_children : List Settled → List Slot → Launched
settle_children [] active = launched_so_far false active []
settle_children (settled ∷ rest) active =
    after_calls (settle_calls settled) (settle_children rest (delete settled.slot active))

unfoldable pub launch_count : AnalysisWorkerSettings → Coordinator → CoordinatorTurn → ℕ
launch_count settings c turn = min (settings.max_processes - length c.active) turn.claimable

pub data Kept : Type 0 where
  keeps : Coordinator → Kept
  loses breaks : Kept

-- The first part of a turn: the lease.
unfoldable pub renew : (now : ℕ) → CoordinatorTurn → Coordinator → Kept
renew now turn c =
    if leb c.next_renewal now
    then elim turn.renewal [
      | granted attempt ↦
          keeps (record c { attempt = attempt; next_renewal = now + lease_renewal_ms })
      | refused ↦ loses
      | throws ↦ breaks
    ]
    else keeps c

abbrev pub granted_calls : (now : ℕ) → LeaseAnswer → List CoordinatorCall
granted_calls now (granted attempt) = renew_lease now attempt ∷ []
granted_calls now refused = []
granted_calls now throws = []

abbrev pub renewal_calls : (now : ℕ) → CoordinatorTurn → Coordinator → List CoordinatorCall
renewal_calls now turn c = if leb c.next_renewal now then granted_calls now turn.renewal else []

-- Work that is seen sets the idle time back.
unfoldable pub see_work : (now : ℕ) → CoordinatorTurn → Coordinator → Coordinator
see_work now turn c =
    if ltb 0 turn.claimable || ltb 0 turn.active_running || not (is_none_active c.active)
    then record c { idle_since = now }
    else c

abbrev pub launch_turn : AnalysisWorkerSettings → CoordinatorTurn → Coordinator → Launched
launch_turn settings turn c = launch_children turn.launch (launch_count settings c turn) 0 c.active

unfoldable pub launched_state :
    AnalysisWorkerSettings → (now : ℕ) → CoordinatorTurn → Coordinator → Coordinator
launched_state settings now turn c =
    let launched = record c { active = (launch_turn settings turn c).active } in
    if ltb 0 (launch_count settings c turn) then record launched { idle_since = now } else launched

unfoldable pub is_idle : AnalysisWorkerSettings → (now : ℕ) → CoordinatorTurn → Coordinator → Bool
is_idle settings now turn c =
    is_none_active c.active
    && (nat_eq turn.claimable_after 0
        && (nat_eq turn.active_running_after 0
            && leb settings.idle_timeout_ms (now - c.idle_since)))

-- The second count of the jobs, which is made when no worker is active.
abbrev pub recount_throws : CoordinatorTurn → Coordinator → Bool
recount_throws turn c =
    is_none_active c.active
    && (turn.faults.claimable_after
        || (nat_eq turn.claimable_after 0 && turn.faults.active_running_after))

-- What a turn comes to, with the lease's attempt for the `finally` block.
pub data Verdict : Type 0 where
  returns : CoordinatorStatus → (attempt : ℕ) → Verdict
  raises : (attempt : ℕ) → Verdict
  goes_on : Coordinator → Verdict

pub record Step : Type 0 where
  pub verdict : Verdict
  pub calls : List CoordinatorCall

abbrev pub wait_of : AnalysisWorkerSettings → (now : ℕ) → CoordinatorTurn → Coordinator → ℕ
wait_of settings now turn c =
    next_wait now c.next_renewal (c.idle_since + settings.idle_timeout_ms) turn.next_retry_at

-- The delay, in which children settle.
unfoldable pub wait :
    AnalysisWorkerSettings → (now : ℕ) → CoordinatorTurn → Coordinator → List CoordinatorCall → Step
wait settings now turn launched calls =
    let after = settle_children turn.settled launched.active in
    record {
      verdict =
          if turn.faults.delay
          then raises launched.attempt
          else goes_on (record launched { active = after.active });
      calls = calls ++ (delay_for (wait_of settings now turn launched) ∷ after.calls);
    }

-- A turn whose lease is kept.
unfoldable pub work : AnalysisWorkerSettings → (now : ℕ) → CoordinatorTurn → Coordinator → Step
work settings now turn kept =
    let seen = see_work now turn kept in
    let launched = launched_state settings now turn seen in
    let launches = launch_turn settings turn seen in
    if turn.faults.counts
    then record { verdict = raises kept.attempt; calls = [] }
    else if launches.threw || recount_throws turn launched
    then record { verdict = raises launched.attempt; calls = launches.calls }
    else if is_idle settings now turn launched
    then record { verdict = returns idle_timeout launched.attempt; calls = launches.calls }
    else wait settings now turn launched launches.calls

-- One turn of the `while` loop, with its delay.
unfoldable pub coordinate : AnalysisWorkerSettings → CoordinatorTurn → Coordinator → Step
coordinate settings turn c = elim turn.now [
  | none ↦ record { verdict = raises c.attempt; calls = [] }
  | some now ↦ elim (renew now turn c) [
    | loses ↦ record { verdict = returns lease_held c.attempt; calls = [] }
    | breaks ↦ record { verdict = raises c.attempt; calls = [] }
    | keeps kept ↦
        let step = work settings now turn kept in
        record step { calls = renewal_calls now turn c ++ step.calls }
  ]
]
