-- ===== src/Runtime/Gate.antt =====
-- src/runtime/gate.ts and rule-index.ts: the decision gate over a resolved runtime state. SHA-256
-- over the written form of the input is the parameter `digest` of that form; `freezeDecision`
-- copies a decision and freezes the copies, so it is the decision.
pub mod Strongest
pub mod Laws
pub mod Construction
use agent_experience_agentic.Common.{
  ℕ, Text, codes, ◌==◌, List, [], ◌∷◌, ◌++◌, Bool, true, false, not, ◌&&◌, ◌||◌, if◌then◌else◌,
  Option, none, some, is_some, Result, ok, err, ◌>>=◌, ◌>>◌, guard, map, any, ltb, sort, text_lt,
  unique_from,
}
use agent_experience_agentic.Domain.Types.{KnowledgeState}
use agent_experience_agentic.Runtime.Contracts.{
  OperationClass, DecisionOutcome, allow, warn, block, MatchStrength, RuntimeInput, RuntimeRule,
  RuleMatch, RuntimeProfile, RuntimeExplanationCode, DecisionReference, RuntimeDecision,
}
use agent_experience_agentic.Runtime.Paths.{PathError}
use agent_experience_agentic.Runtime.Matcher.{
  CanonicalSignature, canonical_token, canonical_signature, or_empty, match_rules, match_run,
}
use agent_experience_agentic.Runtime.Policy.{evaluate_rule}
use agent_experience_agentic.Runtime.Resilience.{
  FallbackSource, memory, snapshot, last_known_good, degraded_policy, Health, healthy, fallback,
  RetrievalMode, deterministic, RuntimeStatus, degraded_class_outcome,
}

-- `RuntimeExplanationCode | 'DEGRADED_POLICY'`.
pub data GateExplanationCode : Type 0 where
  rule_code : RuntimeExplanationCode → GateExplanationCode
  degraded_policy_code : GateExplanationCode

pub record GateExplanation : Type 0 where
  pub code : GateExplanationCode
  pub message : Text
  pub outcome : DecisionOutcome
  pub rule_id : Option Text
  pub match_strength : Option MatchStrength
  pub authoritative : Option Bool
  pub knowledge_state : Option KnowledgeState

pub data OverrideKind : Type 0 where
  rule action task_session : OverrideKind

pub record OverrideMetadata : Type 0 where
  pub override_id : Text
  pub scope : OverrideKind
  pub overridden_rule_ids : List Text

pub record GateDecision : Type 0 where
  pub outcome : DecisionOutcome
  pub operation_class : OperationClass
  pub explanations : List GateExplanation
  pub references : List DecisionReference
  pub capture_enabled : Bool
  pub retrieval_enabled : Bool
  pub status : RuntimeStatus
  pub input_binding : Text
  pub override : Option OverrideMetadata

-- `createRuleIndex` on a snapshot that has been parsed.
pub record RuleIndex : Type 0 where
  pub repository_id : Text
  pub rules : List RuntimeRule

pub record RuntimeGateOptions : Type 0 where
  pub index : Option RuleIndex
  pub profile : RuntimeProfile
  pub status : RuntimeStatus

unfoldable pub outcome_rank : DecisionOutcome → ℕ
outcome_rank allow = 0
outcome_rank warn = 1
outcome_rank block = 2

unfoldable pub stronger : DecisionOutcome → DecisionOutcome → DecisionOutcome
unfolding outcome_rank
stronger selected outcome =
    if ltb (outcome_rank selected) (outcome_rank outcome) then outcome else selected

strongest_from : DecisionOutcome → List DecisionOutcome → DecisionOutcome
strongest_from selected [] = selected
strongest_from selected (o ∷ os) = strongest_from (stronger selected o) os

unfoldable pub strongest : List DecisionOutcome → DecisionOutcome
unfolding strongest_from stronger
strongest outcomes = strongest_from allow outcomes

-- The `TypeError`s of `assertResolvedState`, in its order.
pub data GateError : Type 0 where
  other_profile index_while_degraded index_required inconsistent_degradation inconsistent_health :
      GateError

abbrev is_degraded_mode : RetrievalMode → Bool
is_degraded_mode RetrievalMode.degraded = true
is_degraded_mode deterministic = false

abbrev is_degraded_policy : FallbackSource → Bool
is_degraded_policy degraded_policy = true
is_degraded_policy _ = false

abbrev is_degraded_health : Health → Bool
is_degraded_health Health.degraded = true
is_degraded_health _ = false

-- `===` of booleans.
abbrev same : Bool → Bool → Bool
same true b = b
same false b = not b

unfoldable pub assert_resolved_state : RuntimeGateOptions → Result GateError (Unit {0})
assert_resolved_state options = do
  let status = options.status
  guard
      (status.profile_id == options.profile.id
        && same status.hard_blocking options.profile.hard_blocking)
      other_profile
  let by_mode = is_degraded_mode status.retrieval_mode
  let by_source = is_degraded_policy status.fallback_source
  let degraded = by_mode || by_source
  guard (not (degraded && is_some options.index)) index_while_degraded
  guard (not (not degraded && not (is_some options.index))) index_required
  guard (same degraded (by_mode && by_source)) inconsistent_degradation
  guard (same degraded (is_degraded_health status.health)) inconsistent_health

-- The gate is its options, once they are checked; the copies that it keeps are frozen.
unfoldable pub create_runtime_gate : RuntimeGateOptions → Result GateError RuntimeGateOptions
create_runtime_gate options = do assert_resolved_state options; ok options

-- What `runtimeInputBinding` digests.
pub record InputForm : Type 0 where
  pub operation_class : OperationClass
  pub repository_id : Option Text
  pub signature : CanonicalSignature
  pub tags : List Text

abbrev pub explain : RuntimeDecision → GateExplanation
explain d = record {
  code = rule_code d.explanation.code;
  message = d.explanation.message;
  outcome = d.outcome;
  rule_id = some d.explanation.rule_id;
  match_strength = some d.explanation.match_strength;
  authoritative = some d.explanation.authoritative;
  knowledge_state = some d.explanation.knowledge_state;
}

abbrev pub all_references : List RuntimeDecision → List DecisionReference
all_references [] = []
all_references (d ∷ ds) = d.references ++ all_references ds

abbrev pub explanation_outcomes : List GateExplanation → List DecisionOutcome
explanation_outcomes = map (λ e. e.outcome)

abbrev pub degraded_explanation : DecisionOutcome → GateExplanation
degraded_explanation outcome = record {
  code = degraded_policy_code;
  message = codes "Runtime knowledge is unavailable; the configured degraded policy applies.";
  outcome = outcome;
  rule_id = none;
  match_strength = none;
  authoritative = none;
  knowledge_state = none;
}

-- The decision over the matches of the index.
unfoldable pub decide :
    RuntimeInput → RuntimeProfile → RuntimeStatus → List RuleMatch → Text → GateDecision
decide input profile status matches binding =
    let decisions = map (λ m. evaluate_rule m profile) matches in
    let explanations = map explain decisions in
    record {
      outcome = strongest (explanation_outcomes explanations);
      operation_class = input.operation_class;
      explanations = explanations;
      references = all_references decisions;
      capture_enabled = profile.capture_enabled;
      retrieval_enabled = profile.retrieval_enabled;
      status = status;
      input_binding = binding;
      override = none;
    }

abbrev pub index_rules : Option RuleIndex → List RuntimeRule
index_rules none = []
index_rules (some index) = index.rules

module _ (lower : Text → Text) (digest : InputForm → Text) where
  unfoldable pub runtime_input_form : RuntimeInput → Result PathError InputForm
  runtime_input_form input = do
    signature ← canonical_signature lower input.signature
    ok (record {
      operation_class = input.operation_class;
      repository_id = input.repository_id;
      signature = signature;
      tags = sort text_lt (unique_from [] (map (canonical_token lower) (or_empty input.tags)));
    })

  unfoldable pub runtime_input_binding : RuntimeInput → Result PathError Text
  runtime_input_binding input = do form ← runtime_input_form input; ok (digest form)

  unfoldable pub degraded_decision :
      RuntimeInput → RuntimeProfile → RuntimeStatus → Result PathError GateDecision
  degraded_decision input profile status = do
    binding ← runtime_input_binding input
    let outcome = degraded_class_outcome profile input.operation_class
    ok (record {
      outcome = outcome;
      operation_class = input.operation_class;
      explanations = degraded_explanation outcome ∷ [];
      references = [];
      capture_enabled = profile.capture_enabled;
      retrieval_enabled = profile.retrieval_enabled;
      status = status;
      input_binding = binding;
      override = none;
    })

  -- `evaluate` of a gate. With no index in the deterministic mode `index!` would fault; a gate
  -- that was created has one (`Construction`).
  unfoldable pub evaluate : RuntimeGateOptions → RuntimeInput → Result PathError GateDecision
  evaluate gate input =
      if is_degraded_mode gate.status.retrieval_mode
      then degraded_decision input gate.profile gate.status
      else do
        matches ← match_rules lower input (index_rules gate.index)
        binding ← runtime_input_binding input
        ok (decide input gate.profile gate.status matches binding)
