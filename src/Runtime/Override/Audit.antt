-- ===== src/Runtime/Override/Audit.antt =====
-- `validateOverrideAuditEntry`: the rows that record the use of an override. The values have the
-- fields and types of `OverrideAuditEntry`.
use agent_experience_agentic.Common.{
  ℕ, Text, List, [], ◌∷◌, Bool, true, false, not, ◌&&◌, ◌||◌, Option, none, some, is_some, Result,
  ok, ◌>>=◌, ◌>>◌, guard, length, map, leb, text_lt, is_duplicate_free,
}
use agent_experience_agentic.Runtime.Contracts.{DecisionReference}
use agent_experience_agentic.Runtime.Override.{
  RuntimeOverride, OverrideError, too_many_references, unexpected_outcome, missing_outcome,
  outside_validity, duplicate_reference, max_references, assert_timestamp, checked_identifier,
  checked_persisted_text,
}
use agent_experience_agentic.Runtime.Override.Grant.{parse_runtime_override}
use agent_experience_agentic.Runtime.Override.Apply.{has_expired}

pub data PostActionOutcome : Type 0 where
  succeeded failed unknown : PostActionOutcome

pub data AuditPhase : Type 0 where
  authorized completed : AuditPhase

pub record OverrideAuditEntry : Type 0 where
  pub id : Text
  pub use_id : Text
  pub override : RuntimeOverride
  pub phase : AuditPhase
  pub recorded_at : Text
  pub decision_references : List DecisionReference
  pub post_action_outcome : Option PostActionOutcome

-- What successful overrides say of a rule: `polarity` is always a contradiction, and a
-- revalidation is always required.
pub record OverrideLearningEvidence : Type 0 where
  pub rule_id : Text
  pub successful_override_ids : List Text
  pub successful_use_ids : List Text
  pub successful_use_count : ℕ

abbrev pub is_authorized : AuditPhase → Bool
is_authorized authorized = true
is_authorized completed = false

module _ (is_iso safe : Text → Bool) where
  unfoldable pub check_identifiers : List Text → Result OverrideError (Unit {0})
  check_identifiers [] = ok tt
  check_identifiers (id ∷ ids) = do
    checked ← checked_identifier is_iso safe id
    check_identifiers ids

  unfoldable pub check_source : Option Text → Result OverrideError (Option Text)
  check_source none = ok none
  check_source (some source) = do
    checked ← checked_persisted_text is_iso safe source
    ok (some checked)

  unfoldable pub parse_reference : DecisionReference → Result OverrideError DecisionReference
  parse_reference value = do
    rule_id ← checked_identifier is_iso safe value.rule_id
    knowledge_id ← checked_identifier is_iso safe value.knowledge_id
    guard (leb (length value.evidence_ids) max_references) too_many_references
    check_identifiers value.evidence_ids
    source ← check_source value.source
    ok (record {
      rule_id = rule_id;
      knowledge_id = knowledge_id;
      evidence_ids = value.evidence_ids;
      source = source;
    })

  unfoldable pub parse_references :
      List DecisionReference → Result OverrideError (List DecisionReference)
  parse_references [] = ok []
  parse_references (r ∷ rs) = do
    first ← parse_reference r
    rest ← parse_references rs
    ok (first ∷ rest)

  unfoldable pub validate_override_audit_entry :
      OverrideAuditEntry → Result OverrideError OverrideAuditEntry
  validate_override_audit_entry value = do
    id ← checked_identifier is_iso safe value.id
    use_id ← checked_identifier is_iso safe value.use_id
    assert_timestamp is_iso safe value.recorded_at
    override ← parse_runtime_override is_iso safe value.override
    guard (not (is_authorized value.phase && is_some value.post_action_outcome)) unexpected_outcome
    guard (is_authorized value.phase || is_some value.post_action_outcome) missing_outcome
    guard
        (not (
          is_authorized value.phase
          && (text_lt value.recorded_at override.created_at
              || has_expired value.recorded_at override.expires_at)))
        outside_validity
    references ← parse_references value.decision_references
    guard (leb (length references) max_references) too_many_references
    guard (is_duplicate_free (map (λ r. r.rule_id) references)) duplicate_reference
    ok (record {
      id = id;
      use_id = use_id;
      override = override;
      phase = value.phase;
      recorded_at = value.recorded_at;
      decision_references = references;
      post_action_outcome = value.post_action_outcome;
    })
