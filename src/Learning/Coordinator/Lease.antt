-- ===== src/Learning/Coordinator/Lease.antt =====
-- That the coordinator gives its lease back.
use mathlib.Core.List.{append_assoc}
use agent_experience_agentic.Common.{
  ℕ, zero, suc, List, [], ◌∷◌, ◌++◌, Bool, true, false, Option, none, some, ok, ◌≡◌, refl, arith,
  leb, Bool-cases, inl, inr,
}
use agent_experience_agentic.Learning.Settings.{AnalysisWorkerSettings, validate_settings}
use agent_experience_agentic.Learning.Coordinator.{
  CoordinatorTurn, Coordinator, LeaseAnswer, refused, throws, granted, Kept, keeps, loses, breaks,
  CoordinatorCall, renew_lease, spawn_child, release_slot, record_diagnostic, delay_for,
  release_lease, coordinate, renew, work, renewal_calls, Verdict, goes_on, returns, raises,
}
use agent_experience_agentic.Learning.Coordinator.Run.{
  CoordinatorEnd, CoordinatorHost, returned, raised, out_of_turns, coordinate_turns, first_state,
  run_analysis_coordinator, end_of,
}
use agent_experience_agentic.Learning.Coordinator.Plain.{
  ArePlain, attempt_of, work-ArePlain, work-attempt,
}

-- The lease that is held is released by the last call, and not before, if the run has ended. It is
-- the one of the attempt `held`, or of the last renewal that was granted.
abbrev pub IsReleased : (has_ended : Bool) (held : ℕ) → List CoordinatorCall → Type 0
IsReleased has_ended held [] = has_ended ≡ false
IsReleased has_ended held (release_lease attempt ∷ calls) =
    (has_ended ≡ true) × (attempt ≡ held) × (calls ≡ [])
IsReleased has_ended held (renew_lease _ attempt ∷ calls) = IsReleased has_ended attempt calls
IsReleased has_ended held (spawn_child _ ∷ calls) = IsReleased has_ended held calls
IsReleased has_ended held (release_slot _ ∷ calls) = IsReleased has_ended held calls
IsReleased has_ended held (record_diagnostic _ ∷ calls) = IsReleased has_ended held calls
IsReleased has_ended held (delay_for _ ∷ calls) = IsReleased has_ended held calls

IsReleased-append :
    (has_ended : Bool) (held : ℕ) (xs ys : List CoordinatorCall)
    → ArePlain xs
    → IsReleased has_ended held ys
    → IsReleased has_ended held (xs ++ ys)
IsReleased-append b held [] ys plain h = h
IsReleased-append b held (release_lease _ ∷ xs) ys plain h = absurd (ground (arith, plain.0))
IsReleased-append b held (renew_lease _ _ ∷ xs) ys plain h = absurd (ground (arith, plain.0))
IsReleased-append b held (spawn_child _ ∷ xs) ys plain h = IsReleased-append b held xs ys plain.1 h
IsReleased-append b held (release_slot _ ∷ xs) ys plain h = IsReleased-append b held xs ys plain.1 h
IsReleased-append b held (record_diagnostic _ ∷ xs) ys plain h =
    IsReleased-append b held xs ys plain.1 h
IsReleased-append b held (delay_for _ ∷ xs) ys plain h = IsReleased-append b held xs ys plain.1 h

renewal_calls-IsReleased :
    (now : ℕ) (turn : CoordinatorTurn) (c kept : Coordinator) (has_ended : Bool)
    (calls : List CoordinatorCall)
    → renew now turn c ≡ keeps kept
    → IsReleased has_ended kept.attempt calls
    → IsReleased has_ended c.attempt (renewal_calls now turn c ++ calls)
unfolding renew
renewal_calls-IsReleased now turn c kept has_ended calls e h =
    elim (Bool-cases (leb c.next_renewal now)) [
      | inl t ↦ by_answer turn.renewal t refl
      | inr f ↦ let same : kept.attempt ≡ c.attempt = ground (arith, e, f) in rw f (rw same at h)
    ]
  where
    by_answer :
        (a : LeaseAnswer)
        → leb c.next_renewal now ≡ true
        → turn.renewal ≡ a
        → IsReleased has_ended c.attempt (renewal_calls now turn c ++ calls)
    by_answer (granted attempt) t f =
        let same : kept.attempt ≡ attempt = ground (arith, e, t, f) in rw (t, f) (rw same at h)
    by_answer refused t f = absurd (ground (arith, e, t, f))
    by_answer throws t f = absurd (ground (arith, e, t, f))

coordinate-IsReleased :
    (settings : AnalysisWorkerSettings) (turn : CoordinatorTurn) (c : Coordinator)
    (has_ended : Bool) (ys : List CoordinatorCall)
    → IsReleased has_ended (attempt_of (coordinate settings turn c).verdict) ys
    → IsReleased has_ended c.attempt ((coordinate settings turn c).calls ++ ys)
unfolding coordinate
coordinate-IsReleased settings turn c has_ended ys h = by_now turn.now refl
  where
    by_renewal :
        (now : ℕ) (kept : Kept)
        → turn.now ≡ some now
        → renew now turn c ≡ kept
        → IsReleased has_ended c.attempt ((coordinate settings turn c).calls ++ ys)
    by_renewal now loses f g = ground (arith, f, g, h)
    by_renewal now breaks f g = ground (arith, f, g, h)
    by_renewal now (keeps kept) f g =
        let step = work settings now turn kept in
        let here : IsReleased has_ended (attempt_of step.verdict) ys = ground (arith, f, g, h) in
        let worked =
          IsReleased-append has_ended kept.attempt step.calls ys
            (work-ArePlain settings now turn kept)
            (rw (work-attempt settings now turn kept) at here) in
        let whole =
          renewal_calls-IsReleased now turn c kept has_ended (step.calls ++ ys) g worked in
        let assoc = append_assoc (renewal_calls now turn c) step.calls ys in
        ground (arith, f, g, whole, assoc)

    by_now :
        (o : Option ℕ)
        → turn.now ≡ o
        → IsReleased has_ended c.attempt ((coordinate settings turn c).calls ++ ys)
    by_now none f = ground (arith, f, h)
    by_now (some now) f = by_renewal now (renew now turn c) f refl

abbrev pub has_ended : CoordinatorEnd → Bool
has_ended out_of_turns = false
has_ended raised = true
has_ended (returned _) = true

coordinate_turns-IsReleased :
    (settings : AnalysisWorkerSettings) (turn : ℕ → CoordinatorTurn) (fuel number : ℕ)
    (c : Coordinator)
    → IsReleased
        (has_ended (coordinate_turns settings turn fuel number c).outcome)
        c.attempt
        (coordinate_turns settings turn fuel number c).calls
unfolding coordinate_turns
coordinate_turns-IsReleased settings turn zero number c = refl
coordinate_turns-IsReleased settings turn (suc fuel) number c =
    by_verdict (coordinate settings (turn number) c).verdict refl
      (coordinate_turns-IsReleased settings turn fuel (suc number))
  where
    by_verdict :
        (v : Verdict)
        → (coordinate settings (turn number) c).verdict ≡ v
        → ((next : Coordinator)
            → IsReleased
                (has_ended (coordinate_turns settings turn fuel (suc number) next).outcome)
                next.attempt
                (coordinate_turns settings turn fuel (suc number) next).calls)
        → IsReleased
            (has_ended (coordinate_turns settings turn (suc fuel) number c).outcome)
            c.attempt
            (coordinate_turns settings turn (suc fuel) number c).calls
    by_verdict (returns status attempt) e rest =
        let here =
          coordinate-IsReleased settings (turn number) c true (release_lease attempt ∷ [])
            (ground (arith, e)) in
        ground (arith, e, here)
    by_verdict (raises attempt) e rest =
        let here =
          coordinate-IsReleased settings (turn number) c true (release_lease attempt ∷ [])
            (ground (arith, e)) in
        ground (arith, e, here)
    by_verdict (goes_on next) e rest =
        let on = coordinate_turns settings turn fuel (suc number) next in
        let later = rest next in
        let here =
          coordinate-IsReleased settings (turn number) c (has_ended on.outcome) on.calls
            (ground (arith, e, later)) in
        ground (arith, e, here)

end_of-has_ended : (fails : Bool) (e : CoordinatorEnd) → has_ended (end_of fails e) ≡ has_ended e
end_of-has_ended fails out_of_turns = refl
end_of-has_ended fails raised = refl
end_of-has_ended true (returned _) = refl
end_of-has_ended false (returned _) = refl

-- A coordinator that acquired the lease and read its clock twice releases exactly the lease that it
-- holds, of the attempt of the last renewal or else of the acquisition, as its last call and not
-- before, however the loop returns or throws: by the clock, a call of the repository or the delay.
pub run_analysis_coordinator-IsReleased :
    (settings : AnalysisWorkerSettings) (host : CoordinatorHost)
    (fuel attempt started_at idle_from : ℕ)
    → validate_settings settings ≡ ok tt
    → host.acquired ≡ granted attempt
    → host.started ≡ some started_at
    → host.idle_started ≡ some idle_from
    → IsReleased
        (has_ended (run_analysis_coordinator settings host fuel).outcome)
        attempt
        (run_analysis_coordinator settings host fuel).calls
unfolding run_analysis_coordinator
run_analysis_coordinator-IsReleased settings host fuel attempt started_at idle_from valid acquired
      started idle =
    let first = first_state attempt started_at idle_from in
    let h = coordinate_turns-IsReleased settings host.turn fuel 0 first in
    let same =
      end_of-has_ended host.release_throws
        (coordinate_turns settings host.turn fuel 0 first).outcome in
    ground (arith, valid, acquired, started, idle, h, same)
