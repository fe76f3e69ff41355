-- ===== src/Learning/Coordinator/Plain.antt =====
-- The calls of a turn that leave the coordinator's lease as it is.
use agent_experience_agentic.Common.{
  ℕ, zero, suc, List, [], ◌∷◌, Bool, true, false, ◌≡◌, refl, arith, All, All-append,
}
use agent_experience_agentic.Learning.Settings.{AnalysisWorkerSettings}
use agent_experience_agentic.Learning.Coordinator.{
  Slot, Launch, no_slot, reserve_throws, spawned, spawn_throws, release_throws, record_throws,
  Settled, CoordinatorTurn, Coordinator, CoordinatorCall, renew_lease, delay_for, release_lease,
  work, wait, launch_children, settle_children, settle_calls, delete, launch_turn, launched_state,
  see_work, wait_of, launch_count, Verdict, goes_on, returns, raises,
}

abbrev pub is_plain : CoordinatorCall → Bool
is_plain (renew_lease _ _) = false
is_plain (release_lease _) = false
is_plain _ = true

abbrev pub ArePlain : List CoordinatorCall → Type 0
ArePlain calls = All (λ call. is_plain call ≡ true) calls

launch_children-ArePlain :
    (launch : ℕ → Launch) (count index : ℕ) (active : List Slot)
    → ArePlain (launch_children launch count index active).calls
unfolding launch_children
launch_children-ArePlain launch zero index active = tt
launch_children-ArePlain launch (suc count) index active =
    by_launch (launch index) refl (launch_children-ArePlain launch count (suc index))
  where
    by_launch :
        (l : Launch)
        → launch index ≡ l
        → ((a : List Slot) → ArePlain (launch_children launch count (suc index) a).calls)
        → ArePlain (launch_children launch (suc count) index active).calls
    by_launch no_slot e rest = ground (arith, e)
    by_launch reserve_throws e rest = ground (arith, e)
    by_launch (spawned slot) e rest = let h = rest (slot ∷ active) in ground (arith, e, h)
    by_launch (spawn_throws slot) e rest = let h = rest active in ground (arith, e, h)
    by_launch (release_throws slot) e rest = ground (arith, e)
    by_launch (record_throws slot) e rest = ground (arith, e)

settle_calls-ArePlain : (settled : Settled) → ArePlain (settle_calls settled)
unfolding settle_calls
settle_calls-ArePlain settled = ground arith

settle_children-ArePlain :
    (settled : List Settled) (active : List Slot) → ArePlain (settle_children settled active).calls
unfolding settle_children
settle_children-ArePlain [] active = tt
settle_children-ArePlain (s ∷ rest) active =
    All-append _ (settle_calls s) (settle_children rest (delete s.slot active)).calls
      (settle_calls-ArePlain s) (settle_children-ArePlain rest (delete s.slot active))

-- The lease after the turn.
abbrev pub attempt_of : Verdict → ℕ
attempt_of (returns _ attempt) = attempt
attempt_of (raises attempt) = attempt
attempt_of (goes_on next) = next.attempt

pub work-ArePlain :
    (settings : AnalysisWorkerSettings) (now : ℕ) (turn : CoordinatorTurn) (c : Coordinator)
    → ArePlain (work settings now turn c).calls
unfolding work wait
work-ArePlain settings now turn c =
    let seen = see_work now turn c in
    let launched = launched_state settings now turn seen in
    let a = launch_children-ArePlain turn.launch (launch_count settings seen turn) 0 seen.active in
    let b = settle_children-ArePlain turn.settled launched.active in
    let waited : ArePlain (
        delay_for (wait_of settings now turn launched)
        ∷ (settle_children turn.settled launched.active).calls) =
      (refl, b) in
    let whole =
      All-append (λ call. is_plain call ≡ true) (launch_turn settings turn seen).calls
        (delay_for (wait_of settings now turn launched)
          ∷ (settle_children turn.settled launched.active).calls)
        a waited in
    ground (arith, a, whole)

pub work-attempt :
    (settings : AnalysisWorkerSettings) (now : ℕ) (turn : CoordinatorTurn) (c : Coordinator)
    → attempt_of (work settings now turn c).verdict ≡ c.attempt
unfolding work wait launched_state see_work
work-attempt settings now turn c = ground arith
