-- ===== src/Domain/Transitions.antt =====
-- src/domain/transitions.ts: which state may follow which, and what a piece of evidence does to
-- an entry. `freezeResult` copies its arguments and freezes the copies, so it is the record.
use agent_experience_agentic.Common.{
  ◌==◌, Option, none, some, List, [], ◌∷◌, ◌++◌, Bool, true, false, not, ◌&&◌, ◌||◌, if◌then◌else◌,
  any, find, is_some,
}
use agent_experience_agentic.Domain.Types.{
  KnowledgeState, candidate, observed, confirmed, verified, disputed, superseded, rejected, expired,
  state_eq, EvidencePolarity, confirms, contradicts, Evidence, KnowledgeEntry, revalidated_state,
  TransitionHistoryEntry, TransitionResult,
}

abbrev pub active_states : List KnowledgeState
active_states = candidate ∷ observed ∷ confirmed ∷ verified ∷ []

abbrev pub terminal_states : List KnowledgeState
terminal_states = superseded ∷ rejected ∷ expired ∷ []

-- `states.includes(state)`.
unfoldable pub includes : List KnowledgeState → KnowledgeState → Bool
unfolding state_eq
includes states state = any (state_eq state) states

unfoldable pub normal_next : KnowledgeState → Option KnowledgeState
normal_next candidate = some observed
normal_next observed = some confirmed
normal_next confirmed = some verified
normal_next _ = none

-- `===` of a state and an optional one.
unfoldable pub is_state : Option KnowledgeState → KnowledgeState → Bool
unfolding state_eq
is_state none state = false
is_state (some s) state = state_eq s state

unfoldable pub can_transition : KnowledgeState → KnowledgeState → Bool
unfolding includes is_state normal_next
can_transition from to =
    if includes terminal_states from || state_eq from to
    then false
    else if state_eq from disputed
    then includes (observed ∷ confirmed ∷ verified ∷ []) to
    else is_state (normal_next from) to
      || (includes active_states from
          && includes (disputed ∷ superseded ∷ rejected ∷ expired ∷ []) to)

unfoldable pub is_contradiction : EvidencePolarity → Bool
is_contradiction contradicts = true
is_contradiction _ = false

unfoldable pub is_confirmation : EvidencePolarity → Bool
is_confirmation confirms = true
is_confirmation _ = false

abbrev pub revalidation_of : Evidence → Option KnowledgeState
revalidation_of e = elim e.revalidates_to [ none ↦ none | some r ↦ some (revalidated_state r) ]

unfoldable pub automatic_target : KnowledgeEntry → Evidence → Option KnowledgeState
unfolding is_contradiction is_confirmation state_eq normal_next
automatic_target entry evidence =
    if is_contradiction evidence.polarity
    then some disputed
    else if state_eq entry.state disputed
    then revalidation_of evidence
    else if is_confirmation evidence.polarity
    then normal_next entry.state
    else none

-- `target !== undefined && target !== 'disputed'`.
unfoldable pub targets_other : Option KnowledgeState → Bool
unfolding state_eq
targets_other none = false
targets_other (some s) = not (state_eq s disputed)

-- The evidence is attached, and the state stays.
abbrev pub attach : KnowledgeEntry → Evidence → KnowledgeEntry
attach entry evidence = record entry { evidence_ids = entry.evidence_ids ++ evidence.id ∷ [] }

-- `target ?? automaticTarget(entry, evidence)`.
unfoldable pub next_state :
    Option KnowledgeState → KnowledgeEntry → Evidence → Option KnowledgeState
unfolding automatic_target
next_state none entry evidence = automatic_target entry evidence
next_state (some s) entry evidence = some s

-- What is left once the next state is known.
unfoldable pub move_to :
    KnowledgeEntry
    → Evidence
    → List TransitionHistoryEntry
    → Option KnowledgeState
    → TransitionResult
unfolding can_transition state_eq is_state
move_to entry evidence history none = record { entry = attach entry evidence; history = history }
move_to entry evidence history (some next) =
    if not (can_transition entry.state next)
    then record { entry = attach entry evidence; history = history }
    else if state_eq entry.state disputed && not (is_state (revalidation_of evidence) next)
    then record { entry = attach entry evidence; history = history }
    else record {
      entry = record (attach entry evidence) { state = next };
      history =
          history
          ++ record { from = entry.state; to = next; evidence_id = evidence.id; occurred_at = none }
            ∷ [];
    }

-- The evidence is not for this entry, or is attached already, or contradicts and asks for a
-- state at once.
unfoldable pub is_refused : KnowledgeEntry → Evidence → Option KnowledgeState → Bool
unfolding is_contradiction targets_other
is_refused entry evidence target =
    (not (evidence.candidate_id == entry.candidate_id) || any (◌==◌ evidence.id) entry.evidence_ids)
    || (is_contradiction evidence.polarity
        && (is_some evidence.revalidates_to || targets_other target))

unfoldable pub apply_transition :
    KnowledgeEntry
    → Evidence
    → List TransitionHistoryEntry
    → Option KnowledgeState
    → TransitionResult
unfolding is_refused next_state move_to
apply_transition entry evidence history target =
    if is_refused entry evidence target
    then record { entry = entry; history = history }
    else move_to entry evidence history (next_state target entry evidence)

abbrev pub dispute_import : KnowledgeEntry → Option Evidence → TransitionResult
dispute_import entry none = record { entry = entry; history = [] }
dispute_import entry (some contradiction) =
    if includes active_states entry.state
    then record {
      entry = record entry { state = disputed };
      history =
          record {
            from = entry.state;
            to = disputed;
            evidence_id = contradiction.id;
            occurred_at = none;
          }
          ∷ [];
    }
    else record { entry = entry; history = [] }

unfoldable pub reconcile_imported_knowledge_lifecycle :
    KnowledgeEntry → List Evidence → TransitionResult
unfolding includes is_contradiction
reconcile_imported_knowledge_lifecycle entry evidence =
    dispute_import entry (find (λ (e : Evidence). is_contradiction e.polarity) evidence)
