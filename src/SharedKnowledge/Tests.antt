-- ===== src/SharedKnowledge/Tests.antt =====
-- A preference that a user has approved.
use agent_experience_agentic.Common.{codes, [], ◌∷◌, true, false, none, some, ◌≡◌, refl, ◌≢◌}
use agent_experience_agentic.Domain.Types.{preference, KnowledgeState}
use agent_experience_agentic.SharedKnowledge.Promotion.{
  SharedKnowledgeDocument, user_preference, user, reviewed_summary, evaluate_promotion, Entitled,
  evaluate_promotion-Entitled,
}

abbrev approved : SharedKnowledgeDocument
approved = record {
  identity = codes "k1";
  kind = preference;
  state = KnowledgeState.confirmed;
  instruction_origin = user_preference;
  approval = some user;
  evidence =
      some (record { kind = reviewed_summary; summary = codes "s"; deterministic = false } ∷ []);
  activation = none;
  merged_provenance = none;
  repository_scope = codes "repository:r1";
  applicability = record { paths = []; tags = []; tools = [] };
  runtime_directive = none;
}

eligible : (evaluate_promotion approved).eligible ≡ true
unfolding evaluate_promotion
eligible = refl

evaluate_promotion-Entitled_example :
    (KnowledgeState.confirmed ≢ KnowledgeState.disputed) × Entitled approved
evaluate_promotion-Entitled_example = evaluate_promotion-Entitled approved eligible
