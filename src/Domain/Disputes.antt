-- ===== src/Domain/Disputes.antt =====
-- How an entry becomes disputed, and how it leaves that state again.
use agent_experience_agentic.Common.{
  ◌==◌, ==_iff, Option, none, some, List, [], ◌∷◌, ◌++◌, Bool, true, false, ◌&&◌, ◌≡◌, refl, ◌≢◌,
  ◌⊎◌, inl, inr, ap, arith, Bool-cases, any, find,
}
use agent_experience_agentic.Domain.Types.{
  TransitionResult, KnowledgeState, candidate, disputed, Evidence, contradicts, KnowledgeEntry,
  TransitionHistoryEntry, state_eq,
}
use agent_experience_agentic.Domain.Transitions.{
  apply_transition, move_to, is_refused, attach, next_state, is_state, includes, is_contradiction,
  revalidation_of, reconcile_imported_knowledge_lifecycle, active_states,
}
use agent_experience_agentic.Domain.History.{IsTrail, recorded}
use agent_experience_agentic.Domain.Lifecycle.{
  dispute, IsActive, can_transition-Step_iff, candidate_active, observed_active, confirmed_active,
  verified_active,
}

active-ne-disputed : {s : KnowledgeState} → IsActive s → state_eq s disputed ≡ false
unfolding state_eq
active-ne-disputed candidate_active = refl
active-ne-disputed observed_active = refl
active-ne-disputed confirmed_active = refl
active-ne-disputed verified_active = refl

contradiction_taken :
    (entry : KnowledgeEntry) (e : Evidence)
    → e.polarity ≡ contradicts
    → e.candidate_id ≡ entry.candidate_id
    → any (◌==◌ e.id) entry.evidence_ids ≡ false
    → e.revalidates_to ≡ none
    → is_refused entry e none ≡ false
unfolding is_refused
contradiction_taken entry e p own new plain =
    ground (arith, ==_iff e.candidate_id entry.candidate_id)

contradiction_target :
    (entry : KnowledgeEntry) (e : Evidence)
    → e.polarity ≡ contradicts
    → next_state none entry e ≡ some disputed
unfolding next_state
contradiction_target entry e p = ground arith

move_to_disputed :
    (entry : KnowledgeEntry) (e : Evidence) (h : List TransitionHistoryEntry)
    → IsActive entry.state
    → move_to entry e h (some disputed) ≡ record {
      entry = record (attach entry e) { state = disputed };
      history = h ++ recorded entry e disputed ∷ [];
    }
unfolding move_to
move_to_disputed entry e h active =
    let edge = (can_transition-Step_iff entry.state disputed).1 (dispute active) in
    let out = active-ne-disputed active in rw (edge, out)

-- A contradiction that is for this entry, is new, and asks for no state puts an active entry in
-- dispute, and records it.
pub apply_transition-contradiction :
    (entry : KnowledgeEntry) (e : Evidence) (h : List TransitionHistoryEntry)
    → IsActive entry.state
    → e.polarity ≡ contradicts
    → e.candidate_id ≡ entry.candidate_id
    → any (◌==◌ e.id) entry.evidence_ids ≡ false
    → e.revalidates_to ≡ none
    → apply_transition entry e h none ≡ record {
      entry = record (attach entry e) { state = disputed };
      history = h ++ recorded entry e disputed ∷ [];
    }
unfolding apply_transition
apply_transition-contradiction entry e h active p own new plain =
    let taken : is_refused entry e none ≡ false = contradiction_taken entry e p own new plain in
    let target : next_state none entry e ≡ some disputed = contradiction_target entry e p in
    rw (taken, target) (move_to_disputed entry e h active)

state_eq_sound : (s t : KnowledgeState) → state_eq s t ≡ true → s ≡ t
unfolding state_eq
state_eq_sound s t h = ground arith

is_state_sound : (o : Option KnowledgeState) (s : KnowledgeState) → is_state o s ≡ true → o ≡ some s
unfolding is_state
is_state_sound none s h = cc
is_state_sound (some t) s h = ap some (state_eq_sound t s h)

move_to_leaves :
    (entry : KnowledgeEntry) (e : Evidence) (h : List TransitionHistoryEntry)
    (next : Option KnowledgeState)
    → entry.state ≡ disputed
    → (move_to entry e h next).entry.state ≢ disputed
    → revalidation_of e ≡ some (move_to entry e h next).entry.state
unfolding move_to
move_to_leaves entry e h none d leaves = absurd (leaves d)
move_to_leaves entry e h (some next) d leaves =
    ground (arith, is_state_sound (revalidation_of e) next)

-- An entry leaves the disputed state only for the state that the evidence revalidates it to.
pub disputed_leaves_by_revalidation :
    (entry : KnowledgeEntry) (e : Evidence) (h : List TransitionHistoryEntry)
    (target : Option KnowledgeState)
    → entry.state ≡ disputed
    → (apply_transition entry e h target).entry.state ≢ disputed
    → revalidation_of e ≡ some (apply_transition entry e h target).entry.state
unfolding apply_transition
disputed_leaves_by_revalidation entry e h target d leaves =
    ground (arith, move_to_leaves entry e h (next_state target entry e) d)

find-any {ℓ} :
    {A : Type ℓ} (p : A → Bool) (xs : List A)
    → ((find p xs ≡ none) × (any p xs ≡ false))
      ⊎ ((x : A) × (find p xs ≡ some x) × (any p xs ≡ true))
find-any p [] = inl (refl, refl)
find-any p (x ∷ xs) = elim (Bool-cases (p x)) [
  | inl t ↦ rw t (inr (x, refl, refl))
  | inr f ↦ rw f (find-any p xs)
]

IsActive-of_includes : (s : KnowledgeState) → includes active_states s ≡ true → IsActive s
unfolding includes
IsActive-of_includes candidate h = candidate_active
IsActive-of_includes KnowledgeState.observed h = observed_active
IsActive-of_includes KnowledgeState.confirmed h = confirmed_active
IsActive-of_includes KnowledgeState.verified h = verified_active
IsActive-of_includes _ h = cc

-- Some of the evidence contradicts, and the entry is active.
abbrev pub is_disputed_by : KnowledgeEntry → List Evidence → Bool
is_disputed_by entry evidence =
    any (λ (e : Evidence). is_contradiction e.polarity) evidence
    && includes active_states entry.state

-- The entry is disputed by one recorded move, or is returned as it was, with no history.
abbrev pub Reconciles : KnowledgeEntry → List Evidence → TransitionResult → Type 0
Reconciles entry evidence r =
    ((is_disputed_by entry evidence ≡ true)
      × (r.entry ≡ record entry { state = disputed })
      × IsTrail entry.state r.history disputed)
    ⊎ ((is_disputed_by entry evidence ≡ false) × (r ≡ record { entry = entry; history = [] }))

-- An import disputes an active entry exactly when some of its evidence contradicts it, with a
-- history that leads from its state to the disputed one, and otherwise returns the entry with no
-- history.
pub reconcile_lem :
    (entry : KnowledgeEntry) (evidence : List Evidence)
    → Reconciles entry evidence (reconcile_imported_knowledge_lifecycle entry evidence)
unfolding reconcile_imported_knowledge_lifecycle
reconcile_lem entry evidence =
    elim (find-any (λ (e : Evidence). is_contradiction e.polarity) evidence) [
      | inl (missed, no_one) ↦ rw (missed, no_one) (inr (refl, refl))
      | inr (e, found, some_one) ↦ elim (Bool-cases (includes active_states entry.state)) [
        | inl active ↦
            rw (found, some_one, active)
              (inl (refl, refl, (refl, dispute (IsActive-of_includes entry.state active), refl)))
        | inr idle ↦ rw (found, some_one, idle) (inr (refl, refl))
      ]
    ]
