-- ===== src/SharedKnowledge/Promotion.antt =====
-- src/shared-knowledge/promotion-policy.ts: which shared knowledge may be promoted. A document is
-- its fields that the policy, `promoteKnowledge` and the runtime read or write; the reasons are constructors.
use agent_experience_agentic.Common.{
  Text, ◌==◌, List, [], ◌∷◌, ◌++◌, Bool, true, false, not, ◌&&◌, if◌then◌else◌, Option, none, some,
  is_some, Result, ok, ◌>>◌, guard, any, filter, ◌≡◌, ◌≢◌, ◌⊎◌, arith,
}
use agent_experience_agentic.Domain.Types.{
  LessonKind, preference, successful_workflow, KnowledgeState, disputed, state_eq,
}
use agent_experience_agentic.SharedKnowledge.Schema.{KnowledgeApplicability, RuntimeDirective}

pub data InstructionOrigin : Type 0 where
  code_tool_confirmed skill_workflow_candidate task_specific_constraint user_preference :
      InstructionOrigin

pub data EvidenceKind : Type 0 where
  code_or_tool reviewed_summary : EvidenceKind

pub record PromotionEvidence : Type 0 where
  pub kind : EvidenceKind
  pub summary : Text
  pub deterministic : Bool

pub data ApprovalKind : Type 0 where
  system user : ApprovalKind

pub data Activation : Type 0 where
  local merged_team_active : Activation

pub record SharedKnowledgeDocument : Type 0 where
  pub identity : Text
  pub kind : LessonKind
  pub state : KnowledgeState
  pub instruction_origin : InstructionOrigin
  pub approval : Option ApprovalKind
  pub evidence : Option (List PromotionEvidence)
  pub activation : Option Activation
  pub merged_provenance : Option Text
  pub repository_scope : Text
  pub applicability : KnowledgeApplicability
  pub runtime_directive : Option RuntimeDirective

pub data PromotionReason : Type 0 where
  is_disputed is_task_specific needs_evidence preference_origin workflow_origin inconsistent_origin
        deterministic_evidence needs_deterministic_evidence not_promotable recorded_user_approval
        needs_user_approval :
      PromotionReason

pub record PromotionEligibility : Type 0 where
  pub eligible : Bool
  pub approval_required : Bool
  pub reasons : List PromotionReason

abbrev rejected_promotion : Bool → PromotionReason → PromotionEligibility
rejected_promotion required reason = record {
  eligible = false;
  approval_required = required;
  reasons = reason ∷ [];
}

abbrev pub is_user : Option ApprovalKind → Bool
is_user none = false
is_user (some system) = false
is_user (some user) = true

unfoldable pub approval_result : SharedKnowledgeDocument → PromotionEligibility
approval_result d =
    if is_user d.approval
    then record { eligible = true; approval_required = true; reasons = recorded_user_approval ∷ [] }
    else rejected_promotion true needs_user_approval

abbrev pub is_preference : LessonKind → Bool
is_preference preference = true
is_preference _ = false

abbrev pub is_workflow : LessonKind → Bool
is_workflow successful_workflow = true
is_workflow _ = false

abbrev has_evidence : Option (List PromotionEvidence) → Bool
has_evidence none = false
has_evidence (some []) = false
has_evidence (some (_ ∷ _)) = true

abbrev is_tool : EvidenceKind → Bool
is_tool code_or_tool = true
is_tool reviewed_summary = false

abbrev pub is_deterministic_tool : PromotionEvidence → Bool
is_deterministic_tool e = is_tool e.kind && e.deterministic

-- `(document.evidence ?? []).some(...)` over the evidence that there is.
abbrev pub has_deterministic : Option (List PromotionEvidence) → Bool
has_deterministic none = false
has_deterministic (some es) = any is_deterministic_tool es

-- The last branches, by the origin.
unfoldable pub by_origin : SharedKnowledgeDocument → InstructionOrigin → PromotionEligibility
by_origin d user_preference = rejected_promotion true inconsistent_origin
by_origin d skill_workflow_candidate = rejected_promotion true inconsistent_origin
by_origin d code_tool_confirmed =
    if has_deterministic d.evidence
    then record {
      eligible = true;
      approval_required = false;
      reasons = deterministic_evidence ∷ [];
    }
    else rejected_promotion false needs_deterministic_evidence
by_origin d task_specific_constraint = rejected_promotion false not_promotable

abbrev is_task_constraint : InstructionOrigin → Bool
is_task_constraint task_specific_constraint = true
is_task_constraint _ = false

abbrev is_user_preference : InstructionOrigin → Bool
is_user_preference user_preference = true
is_user_preference _ = false

abbrev is_workflow_candidate : InstructionOrigin → Bool
is_workflow_candidate skill_workflow_candidate = true
is_workflow_candidate _ = false

unfoldable pub evaluate_promotion : SharedKnowledgeDocument → PromotionEligibility
unfolding state_eq approval_result by_origin
evaluate_promotion d =
    if state_eq d.state disputed
    then rejected_promotion false is_disputed
    else if is_task_constraint d.instruction_origin
    then rejected_promotion false is_task_specific
    else if not (has_evidence d.evidence)
    then rejected_promotion false needs_evidence
    else if is_preference d.kind
    then if not (is_user_preference d.instruction_origin)
      then rejected_promotion true preference_origin
      else approval_result d
    else if is_workflow d.kind
    then if not (is_workflow_candidate d.instruction_origin)
      then rejected_promotion true workflow_origin
      else approval_result d
    else by_origin d d.instruction_origin

pub data PromotionError : Type 0 where
  asserts_merged_activation has_merged_provenance not_eligible : PromotionError

abbrev is_merged : Option Activation → Bool
is_merged none = false
is_merged (some local) = false
is_merged (some merged_team_active) = true

-- `promoteKnowledge` on the documents that `updateSharedKnowledge` reads: those that it writes,
-- and the document that it returns.
unfoldable pub promote_knowledge :
    List SharedKnowledgeDocument
    → SharedKnowledgeDocument
    → Result PromotionError (List SharedKnowledgeDocument × SharedKnowledgeDocument)
promote_knowledge existing d = do
  guard (not (is_merged d.activation)) asserts_merged_activation
  guard (not (is_some d.merged_provenance)) has_merged_provenance
  guard ((evaluate_promotion d).eligible) not_eligible
  let promoted : SharedKnowledgeDocument = record d { activation = some local }
  ok (filter (λ e. not (e.identity == promoted.identity)) existing ++ promoted ∷ [], promoted)

-- What entitles a document: a user's approval of a preference or workflow of its own origin, or
-- deterministic evidence of a tool for what a tool confirmed.
abbrev pub Entitled : SharedKnowledgeDocument → Type 0
Entitled d =
    ((d.kind ≡ preference) × (d.instruction_origin ≡ user_preference) × (is_user d.approval ≡ true))
    ⊎ (((d.kind ≡ successful_workflow)
          × (d.instruction_origin ≡ skill_workflow_candidate)
          × (is_user d.approval ≡ true))
        ⊎ ((d.kind ≢ preference)
            × (d.kind ≢ successful_workflow)
            × (d.instruction_origin ≡ code_tool_confirmed)
            × (has_deterministic d.evidence ≡ true)))

-- A document that evaluatePromotion finds eligible is not disputed, and is a preference or workflow
-- of its own origin with a user approval, or of another kind, confirmed by a tool, with
-- deterministic evidence of a tool.
pub evaluate_promotion-Entitled :
    (d : SharedKnowledgeDocument)
    → (evaluate_promotion d).eligible ≡ true
    → (d.state ≢ disputed) × Entitled d
unfolding evaluate_promotion
evaluate_promotion-Entitled d h = (ground arith, ground arith)
