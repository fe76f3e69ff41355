-- ===== src/Runtime/Snapshot.antt =====
-- src/runtime/snapshot.ts: the checks on rules, and the stored form of a snapshot. A value has the
-- fields and types that its interface declares, and shares no part with another (the source
-- refuses shared objects as circular); freezing gives the value. The two errors of
-- `assertResourceLimits` are one.
pub mod Parse
pub mod Compile
pub mod Storable
pub mod Accepted
pub mod Selection
pub mod Compiled
pub mod Enforcing
use agent_experience_agentic.Common.{
  ℕ, Text, ◌==◌, List, [], ◌∷◌, ◌++◌, Bool, true, false, not, ◌&&◌, ◌||◌, Option, none, some,
  Result, ok, err, ◌>>=◌, ◌>>◌, guard, length, all, any, leb, trim, is_empty, includes_unit,
  text_lt,
}
use agent_experience_agentic.Domain.Types.{
  KnowledgeState, observed, confirmed, verified, disputed, state_eq,
}
use agent_experience_agentic.Domain.Transitions.{includes}
use agent_experience_agentic.Runtime.Contracts.{
  RuntimeSignature, action, intent, Scope, global, repository, RuleApplicability, RuntimeReference,
  RuleEffect, conflict, context, RuntimeRule,
}
use agent_experience_agentic.Runtime.Paths.{PathError, canonical_runtime_path_identity}
use agent_experience_agentic.Runtime.Matcher.{or_empty}

pub data SnapshotError : Type 0 where
  invalid_schema rule_count_limit resource_limit size_limit invalid_string invalid_timestamp
        invalid_signature invalid_applicability invalid_reference invalid_path not_in_stable_order
        inactive_rule not_stored_as_context rule_of_other_repository duplicate_rule
        checksum_mismatch requires_context_input :
      SnapshotError

abbrev pub max_rules : ℕ
max_rules = 10000

abbrev pub max_array_items : ℕ
max_array_items = 100

abbrev pub max_string_length : ℕ
max_string_length = 4096

pub record SnapshotPayload : Type 0 where
  pub repository_id : Text
  pub generated_at : Text
  pub rules : List RuntimeRule

pub record RuntimeSnapshot : Type 0 where
  pub repository_id : Text
  pub generated_at : Text
  pub rules : List RuntimeRule
  pub checksum : Text

abbrev pub payload_of : RuntimeSnapshot → SnapshotPayload
payload_of s = record {
  repository_id = s.repository_id;
  generated_at = s.generated_at;
  rules = s.rules;
}

abbrev pub active_rule_states : List KnowledgeState
active_rule_states = observed ∷ confirmed ∷ verified ∷ disputed ∷ []

unfoldable pub is_active : RuntimeRule → Bool
unfolding includes state_eq
is_active rule = includes active_rule_states rule.state

-- Knowledge that may not enforce: not authoritative, observed or disputed.
unfoldable pub is_context_only : RuntimeRule → Bool
unfolding state_eq
is_context_only rule =
    not rule.authoritative || state_eq rule.state observed || state_eq rule.state disputed

unfoldable pub assert_string : Text → Result SnapshotError (Unit {0})
assert_string value =
    guard
      (not (is_empty (trim value))
        && leb (length value) max_string_length
        && not (includes_unit 0 value))
      invalid_string

abbrev pub within_items {ℓ} : {A : Type ℓ} → List A → Bool
within_items xs = leb (length xs) max_array_items

abbrev pub as_snapshot_error {ℓ} : {A : Type ℓ} → Result PathError A → Result SnapshotError A
as_snapshot_error (err e) = err invalid_path
as_snapshot_error (ok a) = ok a

-- The texts of a rule that are not one of a few literals.
abbrev signature_texts : RuntimeSignature → List Text
signature_texts (action s) = s.tool ∷ s.action ∷ or_empty s.arguments
signature_texts (intent s) = s.verb ∷ s.target ∷ []

abbrev scope_texts : Scope → List Text
scope_texts global = []
scope_texts (repository id) = id ∷ []

abbrev short : Text → Bool
short text = leb (length text) max_string_length

abbrev short_option : Option Text → Bool
short_option none = true
short_option (some text) = short text

abbrev signature_within_limits : RuntimeSignature → Bool
signature_within_limits (action s) =
    leb (length (or_empty s.arguments)) max_rules && short_option s.path
signature_within_limits (intent s) = short_option s.tool && short_option s.path

-- `assertResourceLimits` of a rule.
unfoldable pub rule_within_limits : RuntimeRule → Bool
rule_within_limits rule =
    short rule.id
    && (all short (signature_texts rule.signature)
        && (signature_within_limits rule.signature
            && (all short (scope_texts rule.applicability.scope)
                && (short_option rule.applicability.tool
                    && (short_option rule.applicability.path
                        && (all short (or_empty rule.applicability.tags)
                            && (leb (length (or_empty rule.applicability.tags)) max_rules
                                && (short rule.reference.knowledge_id
                                    && (all short rule.reference.evidence_ids
                                        && (leb (length rule.reference.evidence_ids) max_rules
                                            && short_option rule.reference.source))))))))))

abbrev pub texts_within_limits : List Text → Bool
texts_within_limits = all short

module _ (lower : Text → Text) where
  unfoldable pub validate_runtime_path : Option Text → Result SnapshotError (Unit {0})
  validate_runtime_path none = ok tt
  validate_runtime_path (some path) = do
    identity ← as_snapshot_error (canonical_runtime_path_identity lower path)
    ok tt

  unfoldable pub parse_signature : RuntimeSignature → Result SnapshotError (Unit {0})
  parse_signature (action s) = do
    guard (within_items (or_empty s.arguments)) invalid_signature
    assert_string s.tool
    assert_string s.action
    validate_runtime_path s.path
  parse_signature (intent s) = do
    assert_string s.verb
    assert_string s.target
    validate_runtime_path s.path

  abbrev assert_scope : Scope → Result SnapshotError (Unit {0})
  assert_scope global = ok tt
  assert_scope (repository id) = assert_string id

  unfoldable pub parse_applicability : RuleApplicability → Result SnapshotError (Unit {0})
  parse_applicability a = do
    guard (within_items (or_empty a.tags)) invalid_applicability
    assert_scope a.scope
    validate_runtime_path a.path

  unfoldable pub parse_reference : RuntimeReference → Result SnapshotError (Unit {0})
  parse_reference r = do
    guard (within_items r.evidence_ids) invalid_reference
    assert_string r.knowledge_id

  -- The rule that is returned has the fields of the value.
  unfoldable pub parse_rule : RuntimeRule → Result SnapshotError RuntimeRule
  parse_rule rule = do
    assert_string rule.id
    parse_signature rule.signature
    parse_applicability rule.applicability
    parse_reference rule.reference
    ok rule

  -- `rules.map(parseRule)`.
  unfoldable pub parse_rules : List RuntimeRule → Result SnapshotError (List RuntimeRule)
  parse_rules [] = ok []
  parse_rules (rule ∷ rules) = do
    first ← parse_rule rule
    rest ← parse_rules rules
    ok (first ∷ rest)

-- `compare(left.id, right.id) < 0`.
unfoldable pub rule_before : RuntimeRule → RuntimeRule → Bool
rule_before left right = text_lt left.id right.id
