-- ===== src/Runtime/Policy.antt =====
-- src/runtime/policy.ts: what a matched rule decides under a profile.
pub mod Laws
use agent_experience_agentic.Common.{
  Text, codes, List, [], ◌∷◌, Bool, true, false, not, ◌&&◌, ◌||◌, if◌then◌else◌, Option,
}
use agent_experience_agentic.Domain.Types.{
  KnowledgeState, candidate, observed, confirmed, verified, disputed, superseded, rejected, expired,
  state_eq,
}
use agent_experience_agentic.Domain.Transitions.{includes}
use agent_experience_agentic.Runtime.Contracts.{
  DecisionOutcome, allow, warn, block, MatchStrength, exact, metadata, tags, RuleEffect, conflict,
  context, RuleMatch, RuntimeProfile, RuntimeExplanationCode, verified_exact_conflict,
  verified_metadata_conflict, verified_tag_conflict, confirmed_conflict, context_only,
  inactive_rule, hard_blocking_disabled, warnings_disabled, DecisionExplanation, DecisionReference,
  RuntimeDecision,
}

abbrev pub inactive_states : List KnowledgeState
inactive_states = candidate ∷ superseded ∷ rejected ∷ expired ∷ []

abbrev is_conflict : RuleEffect → Bool
is_conflict conflict = true
is_conflict context = false

abbrev is_exact : MatchStrength → Bool
is_exact exact = true
is_exact _ = false

abbrev is_metadata : MatchStrength → Bool
is_metadata metadata = true
is_metadata _ = false

unfoldable pub base_policy : RuleMatch → DecisionOutcome × RuntimeExplanationCode
unfolding includes state_eq
base_policy m =
    let rule = m.rule in
    if includes inactive_states rule.state
    then (allow, inactive_rule)
    else if not rule.authoritative
        || not (is_conflict rule.effect)
        || state_eq rule.state observed
        || state_eq rule.state disputed
    then (allow, context_only)
    else if state_eq rule.state verified && is_exact m.strength
    then (block, verified_exact_conflict)
    else if state_eq rule.state verified
    then if is_metadata m.strength
      then (warn, verified_metadata_conflict)
      else (warn, verified_tag_conflict)
    else if state_eq rule.state confirmed
    then (warn, confirmed_conflict)
    else (allow, context_only)

unfoldable pub apply_profile :
    DecisionOutcome
    → RuntimeExplanationCode
    → RuntimeProfile
    → DecisionOutcome × RuntimeExplanationCode
apply_profile block code profile =
    if not profile.hard_blocking
    then if profile.warnings_enabled
      then (warn, hard_blocking_disabled)
      else (allow, warnings_disabled)
    else (block, code)
apply_profile warn code profile =
    if not profile.warnings_enabled then (allow, warnings_disabled) else (warn, code)
apply_profile allow code profile = (allow, code)

unfoldable pub explanation_message : RuntimeExplanationCode → Text
explanation_message verified_exact_conflict =
    codes "A verified authoritative rule exactly conflicts with the operation."
explanation_message verified_metadata_conflict =
    codes "A verified authoritative rule conflicts through structured metadata."
explanation_message verified_tag_conflict =
    codes "A verified authoritative rule conflicts through matching tags."
explanation_message confirmed_conflict =
    codes "A confirmed authoritative rule conflicts with the operation."
explanation_message inactive_rule =
    codes "The rule lifecycle state is not active for runtime enforcement."
explanation_message hard_blocking_disabled =
    codes "The active profile converts hard blocking to a warning."
explanation_message warnings_disabled =
    codes "The active profile retains the explanation without enforcement."
explanation_message context_only = codes "The rule is available as contextual knowledge only."

unfoldable pub freeze_explanation : RuleMatch → RuntimeExplanationCode → DecisionExplanation
freeze_explanation m code = record {
  code = code;
  message = explanation_message code;
  rule_id = m.rule.id;
  match_strength = m.strength;
  authoritative = m.rule.authoritative;
  knowledge_state = m.rule.state;
}

unfoldable pub evaluate_rule : RuleMatch → RuntimeProfile → RuntimeDecision
unfolding base_policy apply_profile freeze_explanation
evaluate_rule m profile =
    let (outcome, code) = base_policy m in
    let (applied, applied_code) = apply_profile outcome code profile in
    record {
      outcome = applied;
      operation_class = m.operation_class;
      explanation = freeze_explanation m applied_code;
      references =
          record {
            rule_id = m.rule.id;
            knowledge_id = m.rule.reference.knowledge_id;
            evidence_ids = m.rule.reference.evidence_ids;
            source = m.rule.reference.source;
          }
          ∷ [];
      capture_enabled = profile.capture_enabled;
      retrieval_enabled = profile.retrieval_enabled;
    }
