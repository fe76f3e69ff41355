-- ===== src/Domain/History.antt =====
-- What any sequence of `applyTransition` calls keeps of an entry and of its history.
use agent_experience_agentic.Common.{
  Option, none, some, List, [], ◌∷◌, ◌++◌, false, not, ◌&&◌, ◌≡◌, refl, ◌⊎◌, inl, inr, ◌∙◌,
  Bool-cases,
}
use agent_experience_agentic.Domain.Types.{
  KnowledgeState, disputed, Evidence, KnowledgeEntry, TransitionHistoryEntry, TransitionResult,
  state_eq,
}
use agent_experience_agentic.Domain.Transitions.{
  can_transition, apply_transition, move_to, is_refused, next_state, is_state, revalidation_of,
}
use agent_experience_agentic.Domain.Lifecycle.{
  Step, IsTerminal, can_transition-Step_iff, superseded_terminal, rejected_terminal,
  expired_terminal,
}

-- The entry that a move appends to the history.
abbrev pub recorded : KnowledgeEntry → Evidence → KnowledgeState → TransitionHistoryEntry
recorded entry evidence to = record {
  from = entry.state;
  to = to;
  evidence_id = evidence.id;
  occurred_at = none;
}

-- Nothing moves, or one lifecycle step is taken and recorded.
abbrev pub Moves :
    KnowledgeEntry → Evidence → List TransitionHistoryEntry → TransitionResult → Type 0
Moves entry evidence history r =
    ((r.entry.state ≡ entry.state) × (r.history ≡ history))
    ⊎ (Step entry.state r.entry.state
        × (r.history ≡ history ++ recorded entry evidence r.entry.state ∷ []))

move_to-Moves :
    (entry : KnowledgeEntry) (e : Evidence) (h : List TransitionHistoryEntry)
    (next : Option KnowledgeState)
    → Moves entry e h (move_to entry e h next)
unfolding move_to
move_to-Moves entry e h none = inl (refl, refl)
move_to-Moves entry e h (some next) = elim (Bool-cases (can_transition entry.state next)) [
  | inr no_edge ↦ rw no_edge (inl (refl, refl))
  | inl edge ↦
      elim (Bool-cases (state_eq entry.state disputed && not (is_state (revalidation_of e) next))) [
        | inl kept ↦ rw (edge, kept) (inl (refl, refl))
        | inr moved ↦
            rw (edge, moved) (inr ((can_transition-Step_iff entry.state next).0 edge, refl))
      ]
]

-- Every call leaves state and history alone, or takes one step of the lifecycle and records it
-- with its evidence.
pub apply_transition-Moves :
    (entry : KnowledgeEntry) (e : Evidence) (h : List TransitionHistoryEntry)
    (target : Option KnowledgeState)
    → Moves entry e h (apply_transition entry e h target)
unfolding apply_transition
apply_transition-Moves entry e h target = elim (Bool-cases (is_refused entry e target)) [
  | inl refused ↦ rw refused (inl (refl, refl))
  | inr taken ↦ rw taken (move_to-Moves entry e h (next_state target entry e))
]

-- A sequence of calls, each on the result of the one before.
unfoldable pub replay :
    TransitionResult → List (Evidence × Option KnowledgeState) → TransitionResult
replay r [] = r
replay r ((e, target) ∷ es) = replay (apply_transition r.entry e r.history target) es

-- The history leads from one state to another by lifecycle steps, each from where the last ended.
abbrev pub IsTrail : KnowledgeState → List TransitionHistoryEntry → KnowledgeState → Type 0
IsTrail s [] t = s ≡ t
IsTrail s (h ∷ hs) t = (s ≡ h.from) × Step h.from h.to × IsTrail h.to hs t

IsTrail-concat :
    (s : KnowledgeState) (hs : List TransitionHistoryEntry) (h : TransitionHistoryEntry)
    → IsTrail s hs h.from
    → Step h.from h.to
    → IsTrail s (hs ++ h ∷ []) h.to
IsTrail-concat s [] h e st = (e, st, refl)
IsTrail-concat s (x ∷ hs) h t st = (t.0, t.1, IsTrail-concat x.to hs h t.2 st)

Moves-IsTrail :
    (s : KnowledgeState) (entry : KnowledgeEntry) (e : Evidence) (h : List TransitionHistoryEntry)
    (r : TransitionResult)
    → Moves entry e h r
    → IsTrail s h entry.state
    → IsTrail s r.history r.entry.state
Moves-IsTrail s entry e h r (inl (same, kept)) t = rw (same, kept) t
Moves-IsTrail s entry e h r (inr (step, longer)) t =
    rw longer (IsTrail-concat s h (recorded entry e r.entry.state) t step)

-- Any sequence of applyTransition calls keeps the history an unbroken trail of lifecycle steps that
-- ends in the entry's state.
pub replay-IsTrail :
    (s : KnowledgeState) (r : TransitionResult) (es : List (Evidence × Option KnowledgeState))
    → IsTrail s r.history r.entry.state
    → IsTrail s (replay r es).history (replay r es).entry.state
unfolding replay
replay-IsTrail s r [] t = t
replay-IsTrail s r ((e, target) ∷ es) t =
    let r' = apply_transition r.entry e r.history target in
    replay-IsTrail s r' es
      (Moves-IsTrail s r.entry e r.history r' (apply_transition-Moves r.entry e r.history target) t)

IsTerminal-can_transition :
    {s : KnowledgeState} (t : KnowledgeState) → IsTerminal s → can_transition s t ≡ false
unfolding can_transition
IsTerminal-can_transition t superseded_terminal = refl
IsTerminal-can_transition t rejected_terminal = refl
IsTerminal-can_transition t expired_terminal = refl

apply_transition-terminal :
    (entry : KnowledgeEntry) (e : Evidence) (h : List TransitionHistoryEntry)
    (target : Option KnowledgeState)
    → IsTerminal entry.state
    → ((apply_transition entry e h target).entry.state ≡ entry.state)
      × ((apply_transition entry e h target).history ≡ h)
apply_transition-terminal entry e h target terminal =
    elim (apply_transition-Moves entry e h target) [
      | inl same ↦ same
      | inr (step, _) ↦
          let t = (apply_transition entry e h target).entry.state in
          let edge = (can_transition-Step_iff entry.state t).1 step in
          let closed = IsTerminal-can_transition t terminal in cc
    ]

-- A superseded, rejected or expired entry keeps its state and its history, whatever evidence and
-- whatever targets come.
pub replay-terminal :
    (r : TransitionResult) (es : List (Evidence × Option KnowledgeState))
    → IsTerminal r.entry.state
    → ((replay r es).entry.state ≡ r.entry.state) × ((replay r es).history ≡ r.history)
unfolding replay
replay-terminal r [] terminal = (refl, refl)
replay-terminal r ((e, target) ∷ es) terminal =
    let r' = apply_transition r.entry e r.history target in
    let (same, kept) = apply_transition-terminal r.entry e r.history target terminal in
    let (state, history) = replay-terminal r' es (rw same terminal) in
    (state ∙ same, history ∙ kept)
