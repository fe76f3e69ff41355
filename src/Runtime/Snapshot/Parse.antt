-- ===== src/Runtime/Snapshot/Parse.antt =====
-- `parseRuntimeSnapshot`: what a stored snapshot has to be. `checksum_payload` is SHA-256 of the
-- payload's JSON, `byte_size` the length of the snapshot's JSON in UTF-8, and `is_iso` the test of
-- `assertTimestamp`.
use agent_experience_agentic.Common.{
  ℕ, Text, ◌==◌, List, [], ◌∷◌, Bool, true, false, not, ◌&&◌, Result, ok, ◌>>=◌, ◌>>◌, guard,
  length, all, any, leb, map, sort,
}
use agent_experience_agentic.Runtime.Contracts.{
  Scope, global, repository, RuleEffect, conflict, context, RuntimeRule,
}
use agent_experience_agentic.Runtime.Matcher.{texts_eq}
use agent_experience_agentic.Runtime.Override.{is_signature_hash}
use agent_experience_agentic.Runtime.Snapshot.{
  SnapshotError, invalid_schema, rule_count_limit, resource_limit, size_limit, invalid_timestamp,
  not_in_stable_order, inactive_rule, not_stored_as_context, rule_of_other_repository,
  duplicate_rule, checksum_mismatch, max_rules, SnapshotPayload, RuntimeSnapshot, is_active,
  is_context_only, assert_string, rule_within_limits, texts_within_limits, parse_rules, rule_before,
}

abbrev pub max_runtime_snapshot_bytes : ℕ
max_runtime_snapshot_bytes = 4194304

abbrev pub is_context : RuleEffect → Bool
is_context context = true
is_context conflict = false

abbrev pub is_local : Text → Scope → Bool
is_local id global = true
is_local id (repository r) = r == id

-- The loop over the rules, with the ids that it has seen.
unfoldable pub check_stored : Text → List Text → List RuntimeRule → Result SnapshotError (Unit {0})
check_stored id seen [] = ok tt
check_stored id seen (rule ∷ rules) = do
  guard (is_active rule) inactive_rule
  guard (not (is_context_only rule && not (is_context rule.effect))) not_stored_as_context
  guard (is_local id rule.applicability.scope) rule_of_other_repository
  guard (not (any (◌==◌ rule.id) seen)) duplicate_rule
  check_stored id (rule.id ∷ seen) rules

abbrev pub rule_ids : List RuntimeRule → List Text
rule_ids = map (λ r. r.id)

module _ (lower : Text → Text) (checksum_payload : SnapshotPayload → Text)
    (byte_size : RuntimeSnapshot → ℕ) (is_iso : Text → Bool) where
  unfoldable pub assert_timestamp : Text → Result SnapshotError (Unit {0})
  assert_timestamp value = guard (is_iso value) invalid_timestamp

  unfoldable pub assert_snapshot_byte_limit : RuntimeSnapshot → Result SnapshotError (Unit {0})
  assert_snapshot_byte_limit snapshot =
      guard (leb (byte_size snapshot) max_runtime_snapshot_bytes) size_limit

  unfoldable pub assert_resource_limits : RuntimeSnapshot → Result SnapshotError (Unit {0})
  assert_resource_limits value =
      guard
        (texts_within_limits (value.repository_id ∷ value.generated_at ∷ value.checksum ∷ [])
          && all rule_within_limits value.rules)
        resource_limit

  unfoldable pub parse_runtime_snapshot : RuntimeSnapshot → Result SnapshotError RuntimeSnapshot
  parse_runtime_snapshot value = do
    guard (is_signature_hash value.checksum) invalid_schema
    assert_string value.repository_id
    assert_timestamp value.generated_at
    guard (leb (length value.rules) max_rules) rule_count_limit
    assert_resource_limits value
    parsed ← parse_rules lower value.rules
    let rules = sort rule_before parsed
    guard (texts_eq (rule_ids rules) (rule_ids value.rules)) not_in_stable_order
    check_stored value.repository_id [] rules
    let payload : SnapshotPayload = record {
      repository_id = value.repository_id;
      generated_at = value.generated_at;
      rules = rules;
    }
    guard (checksum_payload payload == value.checksum) checksum_mismatch
    let snapshot : RuntimeSnapshot = record value { rules = rules }
    assert_snapshot_byte_limit snapshot
    ok snapshot
