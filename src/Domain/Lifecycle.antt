-- ===== src/Domain/Lifecycle.antt =====
-- The lifecycle as a step relation, and that `canTransition` and `applyTransition` follow it.
use agent_experience_agentic.Common.{true, ◌≡◌, refl, ◌↔◌, arith}
use agent_experience_agentic.Domain.Types.{
  KnowledgeState, candidate, observed, confirmed, verified, disputed, superseded, rejected, expired,
}
use agent_experience_agentic.Domain.Transitions.{can_transition}

pub data IsActive : KnowledgeState → Type 0 where
  candidate_active : IsActive candidate
  observed_active : IsActive observed
  confirmed_active : IsActive confirmed
  verified_active : IsActive verified

pub data IsTerminal : KnowledgeState → Type 0 where
  superseded_terminal : IsTerminal superseded
  rejected_terminal : IsTerminal rejected
  expired_terminal : IsTerminal expired

-- The edges of the lifecycle.
pub data Step : KnowledgeState → KnowledgeState → Type 0 where
  observe : Step candidate observed
  confirm : Step observed confirmed
  verify : Step confirmed verified
  dispute : {s : KnowledgeState} → IsActive s → Step s disputed
  retire : {s t : KnowledgeState} → IsActive s → IsTerminal t → Step s t
  revalidate_observed : Step disputed observed
  revalidate_confirmed : Step disputed confirmed
  revalidate_verified : Step disputed verified

ruleset edges = (
  observe, confirm, verify, dispute, retire, revalidate_observed, revalidate_confirmed,
  revalidate_verified, candidate_active, observed_active, confirmed_active, verified_active,
  superseded_terminal, rejected_terminal, expired_terminal,
)

can_transition_sound : (s t : KnowledgeState) → can_transition s t ≡ true → Step s t
unfolding can_transition
can_transition_sound s t h = grind (arith, edges)

retire-can_transition :
    {s t : KnowledgeState} → IsActive s → IsTerminal t → can_transition s t ≡ true
unfolding can_transition
retire-can_transition candidate_active superseded_terminal = refl
retire-can_transition candidate_active rejected_terminal = refl
retire-can_transition candidate_active expired_terminal = refl
retire-can_transition observed_active superseded_terminal = refl
retire-can_transition observed_active rejected_terminal = refl
retire-can_transition observed_active expired_terminal = refl
retire-can_transition confirmed_active superseded_terminal = refl
retire-can_transition confirmed_active rejected_terminal = refl
retire-can_transition confirmed_active expired_terminal = refl
retire-can_transition verified_active superseded_terminal = refl
retire-can_transition verified_active rejected_terminal = refl
retire-can_transition verified_active expired_terminal = refl

can_transition_complete : {s t : KnowledgeState} → Step s t → can_transition s t ≡ true
unfolding can_transition
can_transition_complete observe = refl
can_transition_complete confirm = refl
can_transition_complete verify = refl
can_transition_complete (dispute candidate_active) = refl
can_transition_complete (dispute observed_active) = refl
can_transition_complete (dispute confirmed_active) = refl
can_transition_complete (dispute verified_active) = refl
can_transition_complete (retire a t) = retire-can_transition a t
can_transition_complete revalidate_observed = refl
can_transition_complete revalidate_confirmed = refl
can_transition_complete revalidate_verified = refl

-- canTransition allows exactly the edges of the lifecycle: the three normal promotions, dispute and
-- retirement of an active entry, and the three revalidations of a disputed one.
pub can_transition-Step_iff : (s t : KnowledgeState) → (can_transition s t ≡ true) ↔ Step s t
can_transition-Step_iff s t = (can_transition_sound s t, can_transition_complete)
