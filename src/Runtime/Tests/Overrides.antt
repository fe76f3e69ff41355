-- ===== src/Runtime/Tests/Overrides.antt =====
-- An override of one of two rules that enforce, and the row that records it.
use agent_experience_agentic.Common.{
  Text, codes, [], ◌∷◌, Bool, true, none, some, ok, ◌≡◌, refl, ◌≤◌, arith, Memᴰ, text_lt,
  is_duplicate_free, unique_from, trim, ◌==◌,
}
use agent_experience_agentic.Domain.Types.{KnowledgeState}
use agent_experience_agentic.Runtime.Contracts.{
  normal, warn, block, exact, verified_exact_conflict, confirmed_conflict,
}
use agent_experience_agentic.Runtime.CircuitBreaker.{closed}
use agent_experience_agentic.Runtime.Paths.{ascii_lower}
use agent_experience_agentic.Runtime.Matcher.{CanonicalSignature, match_run}
use agent_experience_agentic.Runtime.Resilience.{healthy, deterministic, memory}
use agent_experience_agentic.Runtime.Gate.{
  GateExplanation, GateDecision, rule_code, outcome_rank, runtime_input_binding, runtime_input_form,
}
use agent_experience_agentic.Runtime.Override.{
  RuntimeOverride, RuntimeOverrideInput, rule_scope, action_input, is_signature_hash, action_scope,
  assert_timestamp, assert_durable_text_safe, checked_identifier, checked_persisted_text,
  assert_non_empty, assert_bounded, is_canonical_identifier, hash_signature,
  validate_action_signature_resources,
}
use agent_experience_agentic.Runtime.Override.Grant.{
  create_runtime_override, parse_runtime_override, parse_scope, create_scope, check_expiry,
}
use agent_experience_agentic.Runtime.Override.Apply.{
  ApplyRuntimeOverrideInput, OverrideApplication, apply_runtime_override, rejected, expired,
  scope_matches, settle, enforcing_rule_ids, overridden_decision,
}
use agent_experience_agentic.Runtime.Override.Laws.{IsGranted, apply_runtime_override-accepted}
use agent_experience_agentic.Runtime.Override.Narrow.{apply_runtime_override-narrow}
use agent_experience_agentic.Runtime.Override.RoundTrip.{
  parse_runtime_override-create_runtime_override,
}
use agent_experience_agentic.Runtime.Override.Audit.{
  OverrideAuditEntry, authorized, validate_override_audit_entry, parse_references, parse_reference,
  check_identifiers, check_source,
}
use agent_experience_agentic.Runtime.Override.AuditLaws.{
  IsAudited, validate_override_audit_entry-IsAudited,
}
use agent_experience_agentic.Runtime.Tests.Samples.{input, install, digest}

-- Opens all that an override is computed by.
unfoldable override_run : Unit {0}
unfolding apply_runtime_override parse_runtime_override create_runtime_override parse_scope
    create_scope check_expiry scope_matches settle enforcing_rule_ids overridden_decision
    validate_override_audit_entry parse_references parse_reference check_identifiers check_source
    assert_timestamp assert_durable_text_safe checked_identifier checked_persisted_text
    assert_non_empty assert_bounded is_canonical_identifier is_signature_hash hash_signature
    validate_action_signature_resources runtime_input_binding runtime_input_form match_run text_lt
    is_duplicate_free unique_from trim ◌==◌
override_run = tt

abbrev accepts : Text → Bool
accepts _ = true

abbrev sign : CanonicalSignature → Text
sign _ = codes "0123456789abcdef0123456789abcdef0123456789abcdef0123456789abcdef"

abbrev explained : GateExplanation
explained = record {
  code = rule_code verified_exact_conflict;
  message = codes "";
  outcome = block;
  rule_id = some (codes "rule-1");
  match_strength = some exact;
  authoritative = some true;
  knowledge_state = some KnowledgeState.verified;
}

abbrev other : GateExplanation
other = record explained {
  code = rule_code confirmed_conflict;
  outcome = warn;
  rule_id = some (codes "rule-2");
  knowledge_state = some KnowledgeState.confirmed;
}

abbrev blocked : GateDecision
blocked = record {
  outcome = block;
  operation_class = normal;
  explanations = explained ∷ other ∷ [];
  references =
      record {
        rule_id = codes "rule-1";
        knowledge_id = codes "k1";
        evidence_ids = [];
        source = none;
      }
      ∷ [];
  capture_enabled = true;
  retrieval_enabled = true;
  status = record {
    health = healthy;
    profile_id = codes "normal";
    hard_blocking = true;
    retrieval_mode = deterministic;
    fallback_source = memory;
    circuit_state = closed;
  };
  input_binding = codes "0";
  override = none;
}

abbrev granted : RuntimeOverride
granted = record {
  id = codes "o1";
  scope = rule_scope (codes "rule-1");
  reason = codes "known safe";
  created_at = codes "2024-01-01";
  expires_at = some (codes "2024-01-03");
}

abbrev request : ApplyRuntimeOverrideInput
request = record {
  decision = blocked;
  input = input;
  override = granted;
  now = codes "2024-01-02";
  task_session_id = none;
}

abbrev late : ApplyRuntimeOverrideInput
late = record request { now = codes "2024-01-03" }

abbrev accepted : OverrideApplication
accepted = record {
  accepted = true;
  decision = overridden_decision blocked granted (codes "rule-1" ∷ []);
  rejection = none;
}

applied : apply_runtime_override ascii_lower sign digest accepts accepts request ≡ ok accepted
unfolding override_run
applied = refl

apply_runtime_override-accepted_example :
    IsGranted ascii_lower sign digest accepts accepts request accepted
apply_runtime_override-accepted_example =
    apply_runtime_override-accepted ascii_lower sign digest accepts accepts request applied refl

refused :
    apply_runtime_override ascii_lower sign digest accepts accepts late
    ≡ ok (rejected blocked expired)
unfolding override_run
refused = refl

apply_runtime_override-narrow_example :
    outcome_rank other.outcome ≤ outcome_rank accepted.decision.outcome
apply_runtime_override-narrow_example =
    apply_runtime_override-narrow ascii_lower sign digest accepts accepts request (codes "rule-1")
      other applied refl refl (Memᴰ.tail (Memᴰ.head refl)) (λ e. ground arith)

abbrev for_action : RuntimeOverrideInput
for_action = record {
  id = codes "o2";
  scope = action_input install;
  reason = codes " once ";
  created_at = codes "2024-01-01";
  expires_at = none;
}

abbrev made : RuntimeOverride
made = record {
  id = codes "o2";
  scope = action_scope (codes "0123456789abcdef0123456789abcdef0123456789abcdef0123456789abcdef");
  reason = codes "once";
  created_at = codes "2024-01-01";
  expires_at = none;
}

created : create_runtime_override accepts accepts ascii_lower sign for_action ≡ ok made
unfolding override_run
created = refl

sign-is_signature_hash : (c : CanonicalSignature) → is_signature_hash (sign c) ≡ true
unfolding is_signature_hash
sign-is_signature_hash c = refl

parse_runtime_override-create_runtime_override_example :
    parse_runtime_override accepts accepts made ≡ ok made
parse_runtime_override-create_runtime_override_example =
    parse_runtime_override-create_runtime_override ascii_lower sign accepts accepts
      sign-is_signature_hash for_action created

abbrev row : OverrideAuditEntry
row = record {
  id = codes "a1";
  use_id = codes "u1";
  override = granted;
  phase = authorized;
  recorded_at = codes "2024-01-02";
  decision_references = blocked.references;
  post_action_outcome = none;
}

validated : validate_override_audit_entry accepts accepts row ≡ ok row
unfolding override_run
validated = refl

validate_override_audit_entry-IsAudited_example : IsAudited row
validate_override_audit_entry-IsAudited_example =
    validate_override_audit_entry-IsAudited accepts accepts row validated
