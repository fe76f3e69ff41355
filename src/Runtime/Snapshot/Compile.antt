-- ===== src/Runtime/Snapshot/Compile.antt =====
-- `compileRuntimeSnapshot`: the rules of three sources to one snapshot. `generated_at` is the
-- time stamp that is given, or that the injected clock gives.
use agent_experience_agentic.Runtime.Paths.{canonical_runtime_path_identity, path_run}
use agent_experience_agentic.Common.{
  trim, ℕ, Text, ◌==◌, List, [], ◌∷◌, ◌++◌, Bool, true, false, not, ◌&&◌, ◌||◌, if◌then◌else◌,
  Result, ok, ◌>>=◌, ◌>>◌, guard, length, all, any, leb, map, filter, sort, ◌+◌,
}
use agent_experience_agentic.Runtime.Contracts.{global, repository, context, RuntimeRule}
use agent_experience_agentic.Runtime.Snapshot.{
  SnapshotError, rule_count_limit, resource_limit, duplicate_rule, requires_context_input,
  max_rules, SnapshotPayload, RuntimeSnapshot, is_active, is_context_only, assert_string,
  parse_signature, parse_applicability, parse_reference, validate_runtime_path, rule_within_limits,
  texts_within_limits, parse_rule, parse_rules, rule_before,
}
use agent_experience_agentic.Runtime.Snapshot.Parse.{
  is_local, assert_timestamp, assert_snapshot_byte_limit,
}

pub record SnapshotCompilation : Type 0 where
  pub repository_id : Text
  pub generated_at : Text
  pub global_rules : List RuntimeRule
  pub repository_rules : List RuntimeRule
  pub context_rules : List RuntimeRule

abbrev pub is_global : RuntimeRule → Bool
is_global rule = elim rule.applicability.scope [ global ↦ true | repository _ ↦ false ]

abbrev pub is_of : Text → RuntimeRule → Bool
is_of id rule = elim rule.applicability.scope [ global ↦ false | repository r ↦ r == id ]

abbrev pub is_here : Text → RuntimeRule → Bool
is_here id rule = is_local id rule.applicability.scope

abbrev pub as_context : RuntimeRule → RuntimeRule
as_context rule = record rule { effect = context }

-- The last `map` of the selection.
unfoldable pub demote : RuntimeRule → RuntimeRule
demote rule = if is_context_only rule then as_context rule else rule

unfoldable pub selected_rules : SnapshotCompilation → List RuntimeRule
selected_rules input = map demote (
    filter is_active (
      filter (λ r. is_global r && r.authoritative) input.global_rules
      ++ (filter (λ r. r.authoritative && is_of input.repository_id r) input.repository_rules
          ++ map as_context (filter (is_here input.repository_id) input.context_rules))))

unfoldable pub check_rule_ids : List Text → List RuntimeRule → Result SnapshotError (Unit {0})
check_rule_ids seen [] = ok tt
check_rule_ids seen (rule ∷ rules) = do
  guard (not (any (◌==◌ rule.id) seen)) duplicate_rule
  check_rule_ids (rule.id ∷ seen) rules

unfoldable pub assert_compilation_input_limits :
    SnapshotCompilation → Result SnapshotError (Unit {0})
assert_compilation_input_limits input = do
  guard
      (leb (length input.global_rules + length input.repository_rules + length input.context_rules)
        max_rules)
      rule_count_limit
  guard
      (texts_within_limits (input.generated_at ∷ input.repository_id ∷ [])
        && (all rule_within_limits input.global_rules
            && (all rule_within_limits input.repository_rules
                && all rule_within_limits input.context_rules)))
      resource_limit

module _ (lower : Text → Text) where
  -- `assertAuthoritativeInput`, with the test of the scope as `mine`.
  unfoldable pub assert_authoritative_input :
      (RuntimeRule → Bool) → List RuntimeRule → Result SnapshotError (Unit {0})
  assert_authoritative_input mine [] = ok tt
  assert_authoritative_input mine (rule ∷ rules) =
      let rest = assert_authoritative_input mine rules in
      if not (mine rule) then rest else do
        parsed ← parse_rule lower rule
        guard (not (is_context_only rule)) requires_context_input
        rest

  unfoldable pub assert_context_input : List RuntimeRule → Result SnapshotError (Unit {0})
  assert_context_input rules = do parsed ← parse_rules lower rules; ok tt

  module _ (checksum_payload : SnapshotPayload → Text) (byte_size : RuntimeSnapshot → ℕ)
      (is_iso : Text → Bool) where
    unfoldable pub compile_runtime_snapshot :
        SnapshotCompilation → Result SnapshotError RuntimeSnapshot
    compile_runtime_snapshot input = do
      assert_string input.repository_id
      assert_timestamp lower checksum_payload byte_size is_iso input.generated_at
      assert_compilation_input_limits input
      assert_authoritative_input is_global input.global_rules
      assert_authoritative_input (λ r. not (is_global r))
          (filter (λ r. is_global r || is_of input.repository_id r) input.repository_rules)
      assert_context_input (filter (is_here input.repository_id) input.context_rules)
      parsed ← parse_rules lower (selected_rules input)
      let rules = sort rule_before parsed
      check_rule_ids [] rules
      guard (leb (length rules) max_rules) rule_count_limit
      let payload : SnapshotPayload = record {
        repository_id = input.repository_id;
        generated_at = input.generated_at;
        rules = rules;
      }
      let snapshot : RuntimeSnapshot = record {
        repository_id = input.repository_id;
        generated_at = input.generated_at;
        rules = rules;
        checksum = checksum_payload payload;
      }
      assert_snapshot_byte_limit lower checksum_payload byte_size is_iso snapshot
      ok snapshot

    -- Opens all that a compilation computes by.
    unfoldable pub compile_run : Unit {0}
    unfolding compile_runtime_snapshot assert_string trim assert_timestamp
        assert_compilation_input_limits rule_within_limits assert_authoritative_input parse_rule
        parse_rules parse_signature parse_applicability parse_reference validate_runtime_path
        canonical_runtime_path_identity path_run assert_context_input selected_rules demote
        check_rule_ids is_active is_context_only rule_before sort assert_snapshot_byte_limit
    compile_run = tt
