-- ===== src/Learning/Coordinator/Bounds.antt =====
-- How many workers the coordinator runs, and how long it waits.
use agent_experience_agentic.Common.{
  ℕ, zero, suc, ◌+◌, ◌≤◌, List, [], ◌∷◌, not, Option, none, some, nat_eq, length, length-filter-le,
  ◌≡◌, refl, arith,
}
use agent_experience_agentic.Learning.Settings.{AnalysisWorkerSettings}
use agent_experience_agentic.Learning.Watchdog.{poll_interval_ms}
use agent_experience_agentic.Learning.Coordinator.{
  Slot, Launch, no_slot, reserve_throws, spawned, spawn_throws, release_throws, record_throws, Kept,
  keeps, loses, breaks, wait, Settled, CoordinatorTurn, Coordinator, next_wait, launch_children,
  settle_children, delete, launch_count, renew, see_work, launched_state, work, coordinate, goes_on,
}

-- A wait is of at least a millisecond and at most the poll interval.
pub next_wait_bounds :
    (now renewal_at idle_at : ℕ) (next_retry_at : Option ℕ)
    → (1 ≤ next_wait now renewal_at idle_at next_retry_at)
      × (next_wait now renewal_at idle_at next_retry_at ≤ poll_interval_ms)
unfolding next_wait
next_wait_bounds now renewal_at idle_at next_retry_at = ground arith

length-launch_children :
    (launch : ℕ → Launch) (count index : ℕ) (active : List Slot)
    → length (launch_children launch count index active).active ≤ length active + count
unfolding launch_children
length-launch_children launch zero index active = omega arith
length-launch_children launch (suc count) index active =
    by_launch (launch index) refl (length-launch_children launch count (suc index))
  where
    by_launch :
        (l : Launch)
        → launch index ≡ l
        → ((a : List Slot)
            → length (launch_children launch count (suc index) a).active ≤ length a + count)
        → length (launch_children launch (suc count) index active).active
          ≤ length active + suc count
    by_launch no_slot e rest = ground (arith, e)
    by_launch reserve_throws e rest = ground (arith, e)
    by_launch (spawned slot) e rest = let h = rest (slot ∷ active) in ground (arith, e, h)
    by_launch (spawn_throws slot) e rest = let h = rest active in ground (arith, e, h)
    by_launch (release_throws slot) e rest = ground (arith, e)
    by_launch (record_throws slot) e rest = ground (arith, e)

length-settle_children :
    (settled : List Settled) (active : List Slot)
    → length (settle_children settled active).active ≤ length active
unfolding settle_children
length-settle_children [] active = omega arith
length-settle_children (s ∷ rest) active = omega (
  arith,
  length-settle_children rest (delete s.slot active),
  length-filter-le (λ t. not (nat_eq t s.slot)) active,
)

length-launched_state :
    (settings : AnalysisWorkerSettings) (now : ℕ) (turn : CoordinatorTurn) (c : Coordinator)
    → length c.active ≤ settings.max_processes
    → length (launched_state settings now turn c).active ≤ settings.max_processes
unfolding launched_state launch_count
length-launched_state settings now turn c h =
    let l = length-launch_children turn.launch (launch_count settings c turn) 0 c.active in
    ground (arith, l)

see_work-active :
    (now : ℕ) (turn : CoordinatorTurn) (c : Coordinator) → (see_work now turn c).active ≡ c.active
unfolding see_work
see_work-active now turn c = ground arith

renew-active :
    (now : ℕ) (turn : CoordinatorTurn) (c : Coordinator) {kept : Coordinator}
    → renew now turn c ≡ keeps kept
    → kept.active ≡ c.active
unfolding renew
renew-active now turn c {kept} e = ground arith

work-active :
    (settings : AnalysisWorkerSettings) (now : ℕ) (turn : CoordinatorTurn) (c : Coordinator)
    → length c.active ≤ settings.max_processes
    → {next : Coordinator} → (work settings now turn c).verdict ≡ goes_on next
    → length next.active ≤ settings.max_processes
unfolding work wait
work-active settings now turn c h {next} e =
    let seen = see_work now turn c in
    let same = see_work-active now turn c in
    let started = length-launched_state settings now turn seen (rw same h) in
    let launched = launched_state settings now turn seen in
    let settled = length-settle_children turn.settled launched.active in
    ground (arith, started, settled, e)

-- A turn that goes on has read the clock and kept the lease.
pub coordinate-goes_on :
    (settings : AnalysisWorkerSettings) (turn : CoordinatorTurn) (c : Coordinator)
    {next : Coordinator}
    → (coordinate settings turn c).verdict ≡ goes_on next
    → (now : ℕ) × (kept : Coordinator) × (turn.now ≡ some now)
      × (renew now turn c ≡ keeps kept)
      × ((work settings now turn kept).verdict ≡ goes_on next)
unfolding coordinate
coordinate-goes_on settings turn c {next} e = by_now turn.now refl
  where
    by_renewal :
        (now : ℕ) (kept : Kept)
        → turn.now ≡ some now
        → renew now turn c ≡ kept
        → (now : ℕ) × (kept : Coordinator) × (turn.now ≡ some now)
          × (renew now turn c ≡ keeps kept)
          × ((work settings now turn kept).verdict ≡ goes_on next)
    by_renewal now loses f g = absurd (ground (arith, e, f, g))
    by_renewal now breaks f g = absurd (ground (arith, e, f, g))
    by_renewal now (keeps kept) f g = (now, kept, f, g, ground (arith, e, f, g))

    by_now :
        (o : Option ℕ)
        → turn.now ≡ o
        → (now : ℕ) × (kept : Coordinator) × (turn.now ≡ some now)
          × (renew now turn c ≡ keeps kept)
          × ((work settings now turn kept).verdict ≡ goes_on next)
    by_now none f = absurd (ground (arith, e, f))
    by_now (some now) f = by_renewal now (renew now turn c) f refl

-- The workers are at most as many as the settings allow.
pub coordinate-active :
    (settings : AnalysisWorkerSettings) (turn : CoordinatorTurn) (c : Coordinator)
    → length c.active ≤ settings.max_processes
    → {next : Coordinator} → (coordinate settings turn c).verdict ≡ goes_on next
    → length next.active ≤ settings.max_processes
coordinate-active settings turn c h {next} e =
    let (now, kept, _, renewed, worked) = coordinate-goes_on settings turn c e in
    work-active settings now turn kept (rw (renew-active now turn c renewed) h) worked
