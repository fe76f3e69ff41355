-- ===== src/Domain/Tests.antt =====
-- An entry that is confirmed, disputed and revalidated, and the theorems at it.
use agent_experience_agentic.Common.{
  IsDistinct, Text, String, codes, ◌==◌, ◌≡◌, refl, ◌↔◌, List, [], ◌∷◌, true, Option, none, some,
}
use agent_experience_agentic.Domain.Types.{
  KnowledgeState, candidate, disputed, Revalidation, Evidence, confirms, contradicts,
  KnowledgeEntry, TransitionResult,
}
use agent_experience_agentic.Domain.Transitions.{can_transition, apply_transition}
use agent_experience_agentic.Domain.Lifecycle.{Step, can_transition-Step_iff}
use agent_experience_agentic.Domain.History.{replay, IsTrail, replay-IsTrail}
use agent_experience_agentic.Domain.EvidenceIds.{replay-IsDistinct}

abbrev entry : KnowledgeState → List Text → KnowledgeEntry
entry state ids = record {
  id = codes "k1";
  candidate_id = codes "c1";
  evidence_ids = ids;
  state = state;
  statement = codes "use pnpm";
}

abbrev proof_of : String → Evidence
proof_of id = record {
  id = codes id;
  candidate_id = codes "c1";
  polarity = confirms;
  summary = [];
  revalidates_to = none;
}

abbrev doubt : Evidence
doubt = record {
  id = codes "e2";
  candidate_id = codes "c1";
  polarity = contradicts;
  summary = [];
  revalidates_to = none;
}

abbrev revalidation : Evidence
revalidation = record {
  id = codes "e3";
  candidate_id = codes "c1";
  polarity = confirms;
  summary = [];
  revalidates_to = some Revalidation.confirmed;
}

abbrev start : TransitionResult
start = record { entry = entry candidate []; history = [] }

abbrev story : List (Evidence × Option KnowledgeState)
story = (proof_of "e1", none) ∷ (doubt, none) ∷ (doubt, none) ∷ (revalidation, none) ∷ []

story_ends : (replay start story).entry.state ≡ KnowledgeState.confirmed
unfolding replay apply_transition ◌==◌
story_ends = refl

can_transition-Step_iff_example :
    (can_transition disputed KnowledgeState.verified ≡ true) ↔ Step disputed KnowledgeState.verified
can_transition-Step_iff_example = can_transition-Step_iff disputed KnowledgeState.verified

replay-IsTrail_example :
    IsTrail candidate (replay start story).history (replay start story).entry.state
replay-IsTrail_example = replay-IsTrail candidate start story refl

replay-IsDistinct_example : IsDistinct (replay start story).entry.evidence_ids
replay-IsDistinct_example = replay-IsDistinct start story tt
