-- ===== src/Domain/Types.antt =====
-- src/domain/types.ts: the records and enumerations of the knowledge lifecycle. An identifier is
-- a branded string, so it is a text here.
use agent_experience_agentic.Common.{Text, Option, List, Bool, true, false}

pub data LessonKind : Type 0 where
  failure successful_workflow project_fact convention tool_capability environment_quirk heuristic
        preference :
      LessonKind

pub data KnowledgeState : Type 0 where
  candidate observed confirmed verified disputed superseded rejected expired : KnowledgeState

-- `===` on states.
unfoldable pub state_eq : KnowledgeState → KnowledgeState → Bool
state_eq candidate candidate = true
state_eq observed observed = true
state_eq confirmed confirmed = true
state_eq verified verified = true
state_eq disputed disputed = true
state_eq superseded superseded = true
state_eq rejected rejected = true
state_eq expired expired = true
state_eq _ _ = false

pub data EvidencePolarity : Type 0 where
  confirms contradicts contextualizes : EvidencePolarity

-- The states that a revalidation may name.
pub data Revalidation : Type 0 where
  observed confirmed verified : Revalidation

abbrev pub revalidated_state : Revalidation → KnowledgeState
revalidated_state Revalidation.observed = KnowledgeState.observed
revalidated_state Revalidation.confirmed = KnowledgeState.confirmed
revalidated_state Revalidation.verified = KnowledgeState.verified

pub record Evidence : Type 0 where
  pub id : Text
  pub candidate_id : Text
  pub polarity : EvidencePolarity
  pub summary : Text
  pub revalidates_to : Option Revalidation

pub record KnowledgeEntry : Type 0 where
  pub id : Text
  pub candidate_id : Text
  pub evidence_ids : List Text
  pub state : KnowledgeState
  pub statement : Text

pub record TransitionHistoryEntry : Type 0 where
  pub from : KnowledgeState
  pub to : KnowledgeState
  pub evidence_id : Text
  pub occurred_at : Option Text

pub record TransitionResult : Type 0 where
  pub entry : KnowledgeEntry
  pub history : List TransitionHistoryEntry
