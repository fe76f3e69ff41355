-- ===== src/Runtime/Contracts.antt =====
-- src/runtime/contracts.ts: the values that the runtime's parts exchange.
use agent_experience_agentic.Common.{Text, Option, List, Bool}
use agent_experience_agentic.Domain.Types.{KnowledgeState}

pub data OperationClass : Type 0 where
  normal caution protected : OperationClass

pub data DecisionOutcome : Type 0 where
  allow warn block : DecisionOutcome

pub data MatchStrength : Type 0 where
  exact metadata tags : MatchStrength

pub record ActionSignature : Type 0 where
  pub tool : Text
  pub action : Text
  pub arguments : Option (List Text)
  pub path : Option Text

pub record IntentSignature : Type 0 where
  pub verb : Text
  pub target : Text
  pub tool : Option Text
  pub path : Option Text

-- The union that `kind` discriminates.
pub data RuntimeSignature : Type 0 where
  action : ActionSignature → RuntimeSignature
  intent : IntentSignature → RuntimeSignature

pub record RuntimeInput : Type 0 where
  pub repository_id : Option Text
  pub operation_class : OperationClass
  pub tags : Option (List Text)
  pub signature : RuntimeSignature

-- The scope of a rule: a repository scope carries the repository's id.
pub data Scope : Type 0 where
  global : Scope
  repository : Text → Scope

pub record RuleApplicability : Type 0 where
  pub scope : Scope
  pub tool : Option Text
  pub path : Option Text
  pub tags : Option (List Text)

pub record RuntimeReference : Type 0 where
  pub knowledge_id : Text
  pub evidence_ids : List Text
  pub source : Option Text

pub data RuleEffect : Type 0 where
  conflict context : RuleEffect

pub record RuntimeRule : Type 0 where
  pub id : Text
  pub state : KnowledgeState
  pub authoritative : Bool
  pub effect : RuleEffect
  pub signature : RuntimeSignature
  pub applicability : RuleApplicability
  pub reference : RuntimeReference

pub record RuleMatch : Type 0 where
  pub rule : RuntimeRule
  pub strength : MatchStrength
  pub operation_class : OperationClass

-- `Record<OperationClass, DecisionOutcome>`.
pub record DegradedOutcomes : Type 0 where
  pub normal : DecisionOutcome
  pub caution : DecisionOutcome
  pub protected : DecisionOutcome

abbrev pub degraded_outcome : DegradedOutcomes → OperationClass → DecisionOutcome
degraded_outcome d OperationClass.normal = d.normal
degraded_outcome d OperationClass.caution = d.caution
degraded_outcome d OperationClass.protected = d.protected

pub record RuntimeProfile : Type 0 where
  pub id : Text
  pub hard_blocking : Bool
  pub warnings_enabled : Bool
  pub capture_enabled : Bool
  pub retrieval_enabled : Bool
  pub degraded_outcomes : DegradedOutcomes

pub data RuntimeExplanationCode : Type 0 where
  verified_exact_conflict verified_metadata_conflict verified_tag_conflict confirmed_conflict
        context_only inactive_rule hard_blocking_disabled warnings_disabled :
      RuntimeExplanationCode

pub record DecisionExplanation : Type 0 where
  pub code : RuntimeExplanationCode
  pub message : Text
  pub rule_id : Text
  pub match_strength : MatchStrength
  pub authoritative : Bool
  pub knowledge_state : KnowledgeState

pub record DecisionReference : Type 0 where
  pub rule_id : Text
  pub knowledge_id : Text
  pub evidence_ids : List Text
  pub source : Option Text

pub record RuntimeDecision : Type 0 where
  pub outcome : DecisionOutcome
  pub operation_class : OperationClass
  pub explanation : DecisionExplanation
  pub references : List DecisionReference
  pub capture_enabled : Bool
  pub retrieval_enabled : Bool
