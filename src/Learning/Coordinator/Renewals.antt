-- ===== src/Learning/Coordinator/Renewals.antt =====
-- That the lease of the coordinator does not run out while it works.
use agent_experience_agentic.Common.{
  ℕ, suc, ◌+◌, ◌≤◌, ◌<◌, List, [], ◌∷◌, some, leb, ◌≡◌, refl, arith, inl, inr, Bool-cases,
}
use agent_experience_agentic.Learning.Settings.{AnalysisWorkerSettings}
use agent_experience_agentic.Learning.Coordinator.{
  CoordinatorTurn, Coordinator, CoordinatorCall, renew_lease, spawn_child, release_slot,
  record_diagnostic, delay_for, release_lease, goes_on, coordinate, renew, work, wait, see_work,
  launched_state, coordinator_lease_ms,
}
use agent_experience_agentic.Learning.Coordinator.Run.{first_state}
use agent_experience_agentic.Learning.Coordinator.Bounds.{coordinate-goes_on}
use agent_experience_agentic.Learning.Coordinator.Plain.{ArePlain, work-ArePlain}

-- When the lease was last renewed, where it was at `at` before the calls.
abbrev pub last_renewal : (at : ℕ) → List CoordinatorCall → ℕ
last_renewal at [] = at
last_renewal at (renew_lease now _ ∷ calls) = last_renewal now calls
last_renewal at (release_lease _ ∷ calls) = last_renewal at calls
last_renewal at (spawn_child _ ∷ calls) = last_renewal at calls
last_renewal at (release_slot _ ∷ calls) = last_renewal at calls
last_renewal at (record_diagnostic _ ∷ calls) = last_renewal at calls
last_renewal at (delay_for _ ∷ calls) = last_renewal at calls

last_renewal-plain :
    (at : ℕ) (calls : List CoordinatorCall) → ArePlain calls → last_renewal at calls ≡ at
last_renewal-plain at [] h = refl
last_renewal-plain at (renew_lease _ _ ∷ calls) h = absurd (ground (arith, h.0))
last_renewal-plain at (release_lease _ ∷ calls) h = absurd (ground (arith, h.0))
last_renewal-plain at (spawn_child _ ∷ calls) h = last_renewal-plain at calls h.1
last_renewal-plain at (release_slot _ ∷ calls) h = last_renewal-plain at calls h.1
last_renewal-plain at (record_diagnostic _ ∷ calls) h = last_renewal-plain at calls h.1
last_renewal-plain at (delay_for _ ∷ calls) h = last_renewal-plain at calls h.1

-- The state at the head of a turn, and when its lease was acquired or last renewed.
pub data Renewed (settings : AnalysisWorkerSettings) (turn : ℕ → CoordinatorTurn)
    (attempt acquired_at started_at idle_from : ℕ) : ℕ → Coordinator → ℕ → Type 0 where
  first :
      Renewed settings turn attempt acquired_at started_at idle_from 0
        (first_state attempt started_at idle_from)
        acquired_at
  later :
      {k : ℕ} {c next : Coordinator} {at : ℕ}
      → Renewed settings turn attempt acquired_at started_at idle_from k c at
      → (coordinate settings (turn k) c).verdict ≡ goes_on next
      → Renewed settings turn attempt acquired_at started_at idle_from
          (suc k)
          next
          (last_renewal at (coordinate settings (turn k) c).calls)

work-next_renewal :
    (settings : AnalysisWorkerSettings) (now : ℕ) (t : CoordinatorTurn) (kept : Coordinator)
    {next : Coordinator}
    → (work settings now t kept).verdict ≡ goes_on next
    → next.next_renewal ≡ kept.next_renewal
unfolding work wait see_work launched_state
work-next_renewal settings now t kept {next} e = ground arith

-- A turn that goes on renews the lease when it is due.
coordinate-renewal :
    (settings : AnalysisWorkerSettings) (t : CoordinatorTurn) (c : Coordinator) (at late : ℕ)
    {next : Coordinator}
    → (coordinate settings t c).verdict ≡ goes_on next
    → c.next_renewal ≤ at + 5000 + late
    → (now : ℕ) × (t.now ≡ some now)
      × (now < next.next_renewal)
      × (next.next_renewal ≤ last_renewal at (coordinate settings t c).calls + 5000 + late)
unfolding coordinate renew
coordinate-renewal settings t c at late {next} e due =
    let (now, kept, read, renewed, worked) = coordinate-goes_on settings t c e in
    let same = work-next_renewal settings now t kept worked in
    let plain = work-ArePlain settings now t kept in
    let calls = (work settings now t kept).calls in
    elim (Bool-cases (leb c.next_renewal now)) [
      | inl b ↦
          let spared = last_renewal-plain now calls plain in
          (
            now,
            read,
            ground (arith, b, renewed, same),
            ground (arith, b, read, renewed, same, spared),
          )
      | inr b ↦
          let spared = last_renewal-plain at calls plain in
          (
            now,
            read,
            ground (arith, b, renewed, same),
            ground (arith, b, read, renewed, same, spared, due),
          )
    ]

module _ (settings : AnalysisWorkerSettings) (turn : ℕ → CoordinatorTurn)
    (attempt acquired_at started_at idle_from late : ℕ)
    (soon : started_at ≤ acquired_at + late) where
  Renewed-due :
      {k : ℕ} {c : Coordinator} {at : ℕ}
      → Renewed settings turn attempt acquired_at started_at idle_from k c at
      → c.next_renewal ≤ at + 5000 + late
  Renewed-due Renewed.first = omega (arith, soon)
  Renewed-due (Renewed.later {k} {c} {next} {at} r e) =
      let (_, _, _, h) = coordinate-renewal settings (turn k) c at late e (Renewed-due r) in h

  -- If the time from the acquisition of the lease to the reading of the clock, and the time of a
  -- turn, are together at most 5 seconds, then whenever a turn reads the clock less than the 10
  -- seconds of the lease have passed since the lease was acquired or the last call that renewed it.
  pub Renewed-current :
      (lag : ℕ)
      → late + lag ≤ 5000
      → ((a : ℕ) → (turn 0).now ≡ some a → a ≤ started_at + lag)
      → ((k a b : ℕ) → (turn k).now ≡ some a → (turn (suc k)).now ≡ some b → b ≤ a + lag)
      → {k : ℕ} {c : Coordinator} {at : ℕ}
      → Renewed settings turn attempt acquired_at started_at idle_from k c at
      → {a : ℕ} → (turn k).now ≡ some a
      → a < at + coordinator_lease_ms
  Renewed-current lag small begins goes Renewed.first {a} h =
      let l = begins a h in omega (arith, l, soon)
  Renewed-current lag small begins goes (Renewed.later {k} {c} {next} {at} r e) {a} h =
      let (now, read, before, bound) =
        coordinate-renewal settings (turn k) c at late e (Renewed-due r) in
      let l = goes k now a read h in omega (arith, before, bound, l)
