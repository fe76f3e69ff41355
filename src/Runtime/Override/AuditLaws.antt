-- ===== src/Runtime/Override/AuditLaws.antt =====
-- What a validated audit row guarantees.
use mathlib.Core.Path.{subst}
use agent_experience_agentic.Common.{
  ◌≤◌, Text, Bool, true, false, not, ◌&&◌, ◌||◌, is_some, ok, ◌≡◌, ◌↔◌, arith, length, map, leb,
  text_lt, IsDistinct, is_duplicate_free, is_duplicate_free_sound, >>=-eq-ok, guard-eq-ok,
  ok-injective,
}
use agent_experience_agentic.Runtime.Override.{max_references, assert_timestamp, checked_identifier}
use agent_experience_agentic.Runtime.Override.Grant.{parse_runtime_override}
use agent_experience_agentic.Runtime.Override.Apply.{has_expired}
use agent_experience_agentic.Runtime.Override.Audit.{
  OverrideAuditEntry, authorized, completed, is_authorized, parse_references,
  validate_override_audit_entry,
}

-- A row that is kept: authorised within the validity of the override, with an outcome exactly
-- when the action is completed, and with few references, each to another rule.
pub record IsAudited (e : OverrideAuditEntry) : Type 0 where
  pub started : e.phase ≡ authorized → text_lt e.recorded_at e.override.created_at ≡ false
  pub unexpired : e.phase ≡ authorized → has_expired e.recorded_at e.override.expires_at ≡ false
  pub outcome : (is_some e.post_action_outcome ≡ true) ↔ (e.phase ≡ completed)
  pub few : length e.decision_references ≤ max_references
  pub distinct : IsDistinct (map (λ r. r.rule_id) e.decision_references)

-- Every audit row that validateOverrideAuditEntry returns, if it is authorised, was recorded within
-- the validity of its override, has an outcome exactly when it is completed, and has at most 100
-- references, each to another rule.
pub validate_override_audit_entry-IsAudited :
    (is_iso safe : Text → Bool) (v : OverrideAuditEntry) {e : OverrideAuditEntry}
    → validate_override_audit_entry is_iso safe v ≡ ok e
    → IsAudited e
unfolding validate_override_audit_entry
validate_override_audit_entry-IsAudited is_iso safe v {e} h =
    let (id, _, h1) = >>=-eq-ok (checked_identifier is_iso safe v.id) _ h in
    let (use_id, _, h2) = >>=-eq-ok (checked_identifier is_iso safe v.use_id) _ h1 in
    let (_, _, h3) = >>=-eq-ok (assert_timestamp is_iso safe v.recorded_at) _ h2 in
    let (o, _, h4) = >>=-eq-ok (parse_runtime_override is_iso safe v.override) _ h3 in
    let (c1, h5) =
      guard-eq-ok (not (is_authorized v.phase && is_some v.post_action_outcome)) _ _ h4 in
    let (c2, h6) = guard-eq-ok (is_authorized v.phase || is_some v.post_action_outcome) _ _ h5 in
    let outside = text_lt v.recorded_at o.created_at || has_expired v.recorded_at o.expires_at in
    let (c3, h7) = guard-eq-ok (not (is_authorized v.phase && outside)) _ _ h6 in
    let (rs, _, h8) = >>=-eq-ok (parse_references is_iso safe v.decision_references) _ h7 in
    let (c4, h9) = guard-eq-ok (leb (length rs) max_references) _ _ h8 in
    let (c5, done) = guard-eq-ok (is_duplicate_free (map (λ r. r.rule_id) rs)) _ _ h9 in
    let made : OverrideAuditEntry = record {
      id = id;
      use_id = use_id;
      override = o;
      phase = v.phase;
      recorded_at = v.recorded_at;
      decision_references = rs;
      post_action_outcome = v.post_action_outcome;
    } in
    let same : made ≡ e = ok-injective made e done in
    subst IsAudited same (record {
      started = λ p. ground arith;
      unexpired = λ p. ground arith;
      outcome = (λ p. ground arith, λ p. ground arith);
      few = ground arith;
      distinct = is_duplicate_free_sound _ c5;
    })
