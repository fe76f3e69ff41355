-- ===== src/Runtime/Override/Grant.antt =====
-- `createRuntimeOverride` and `parseRuntimeOverride`. The parser is given a value that has the
-- fields and types of `RuntimeOverride`, as its two callers in override.ts give it.
use agent_experience_agentic.Common.{
  Text, ◌==◌, Bool, Option, none, some, Result, ok, ◌>>=◌, ◌>>◌, guard, trim, text_lt,
}
use agent_experience_agentic.Runtime.Matcher.{CanonicalSignature}
use agent_experience_agentic.Runtime.Override.{
  OverrideScope, rule_scope, action_scope, task_session_scope, OverrideInputScope, rule_input,
  task_session_input, action_input, RuntimeOverride, RuntimeOverrideInput, OverrideError,
  expiry_too_early, reason_not_canonical, invalid_scope, max_text_length, is_signature_hash,
  assert_non_empty, assert_bounded, hash_signature, assert_timestamp, assert_durable_text_safe,
  checked_identifier,
}

module _ (is_iso safe : Text → Bool) where
  -- `expiresAt <= createdAt` is that `createdAt` is not below `expiresAt`.
  unfoldable pub check_expiry : Text → Option Text → Result OverrideError (Unit {0})
  check_expiry created none = ok tt
  check_expiry created (some expiry) = do
    assert_timestamp is_iso safe expiry
    guard (text_lt created expiry) expiry_too_early

  unfoldable pub parse_scope : OverrideScope → Result OverrideError OverrideScope
  parse_scope (rule_scope rule_id) = do
    id ← checked_identifier is_iso safe rule_id
    ok (rule_scope id)
  parse_scope (action_scope signature_hash) = do
    guard (is_signature_hash signature_hash) invalid_scope
    ok (action_scope signature_hash)
  parse_scope (task_session_scope task_session_id) = do
    id ← checked_identifier is_iso safe task_session_id
    ok (task_session_scope id)

  unfoldable pub parse_runtime_override : RuntimeOverride → Result OverrideError RuntimeOverride
  parse_runtime_override value = do
    id ← checked_identifier is_iso safe value.id
    let reason = trim value.reason
    guard (reason == value.reason) reason_not_canonical
    assert_non_empty reason
    assert_bounded reason max_text_length
    assert_durable_text_safe is_iso safe reason
    assert_timestamp is_iso safe value.created_at
    check_expiry value.created_at value.expires_at
    scope ← parse_scope value.scope
    ok (record {
      id = id;
      scope = scope;
      reason = reason;
      created_at = value.created_at;
      expires_at = value.expires_at;
    })

  module _ (lower : Text → Text) (sign : CanonicalSignature → Text) where
    unfoldable pub create_scope : OverrideInputScope → Result OverrideError OverrideScope
    create_scope (action_input signature) = do
      signature_hash ← hash_signature lower sign signature
      ok (action_scope signature_hash)
    create_scope (rule_input rule_id) = do
      id ← checked_identifier is_iso safe rule_id
      ok (rule_scope id)
    create_scope (task_session_input task_session_id) = do
      id ← checked_identifier is_iso safe task_session_id
      ok (task_session_scope id)

    unfoldable pub create_runtime_override :
        RuntimeOverrideInput → Result OverrideError RuntimeOverride
    create_runtime_override input = do
      id ← checked_identifier is_iso safe input.id
      let reason = trim input.reason
      assert_non_empty reason
      assert_bounded reason max_text_length
      assert_durable_text_safe is_iso safe reason
      assert_timestamp is_iso safe input.created_at
      check_expiry input.created_at input.expires_at
      scope ← create_scope input.scope
      ok (record {
        id = id;
        scope = scope;
        reason = reason;
        created_at = input.created_at;
        expires_at = input.expires_at;
      })
