-- ===== src/Runtime/Snapshot/Accepted.antt =====
-- What a snapshot that is read back guarantees, and that the compiler's output is read back.
use mathlib.Core.Path.{subst}
use agent_experience_agentic.Common.{
  ℕ, Text, ◌==◌, ==_iff, ==_refl, List, [], ◌∷◌, Bool, true, false, ok, length, all, false, ◌⊎◌,
  leb, sort, ◌≡◌, refl, arith, >>=-eq-ok, guard-eq-ok, ok-injective, All, All-mono, All-both,
  all-All, All-all, All-of, All-sort, IsSorted, sort-IsSorted, sort_sorted, IsDistinct,
}
use agent_experience_agentic.Runtime.Contracts.{RuntimeRule, context}
use agent_experience_agentic.Runtime.Matcher.{texts_eq}
use agent_experience_agentic.Runtime.Matcher.Equality.{texts_eq_refl}
use agent_experience_agentic.Runtime.Override.{is_signature_hash}
use agent_experience_agentic.Runtime.Snapshot.{
  SnapshotPayload, RuntimeSnapshot, payload_of, max_rules, assert_string, is_active,
  is_context_only, rule_within_limits, texts_within_limits, parse_rule, parse_rules, rule_before,
}
use agent_experience_agentic.Runtime.Snapshot.Parse.{
  check_stored, is_local, rule_ids, assert_timestamp, assert_snapshot_byte_limit,
  assert_resource_limits, parse_runtime_snapshot,
}
use agent_experience_agentic.Runtime.Snapshot.Storable.{
  IsStorable, parse_rules-ok, parse_rules-All, check_stored-All, check_stored-ok,
  check_stored-IsDistinct, rule_before-IsOrder,
}

module _ (lower : Text → Text) (checksum_payload : SnapshotPayload → Text)
    (byte_size : RuntimeSnapshot → ℕ) (is_iso : Text → Bool) where
  -- A snapshot that may be used.
  pub record IsSnapshot (s : RuntimeSnapshot) : Type 0 where
    pub storable : All (IsStorable lower s.repository_id) s.rules
    pub sorted : IsSorted rule_before s.rules
    pub distinct : IsDistinct (rule_ids s.rules)
    pub sealed : checksum_payload (payload_of s) ≡ s.checksum

  limits_of :
      (v : RuntimeSnapshot)
      → assert_resource_limits lower checksum_payload byte_size is_iso v ≡ ok tt
      → All (λ r. rule_within_limits r ≡ true) v.rules
  unfolding assert_resource_limits
  limits_of v h = all-All rule_within_limits v.rules (ground arith)

  IsStorable-sort :
      (id : Text) (rules : List RuntimeRule)
      → All (λ r. parse_rule lower r ≡ ok r) rules
      → All (λ r. rule_within_limits r ≡ true) rules
      → check_stored id [] (sort rule_before rules) ≡ ok tt
      → All (IsStorable lower id) (sort rule_before rules)
  IsStorable-sort id rules parsed limited checked =
      All-both {P = λ r. (parse_rule lower r ≡ ok r) × (rule_within_limits r ≡ true)}
        {Q = λ r.
          (is_active r ≡ true)
          × ((is_context_only r ≡ false) ⊎ (r.effect ≡ context))
          × (is_local id r.applicability.scope ≡ true)}
        (sort rule_before rules)
        (λ r a b. record {
          parsed = a.0;
          active = b.0;
          contextual = b.1;
          here = b.2;
          limited = a.1;
        })
        (All-sort rule_before _ rules (All-both rules (λ r p q. (p, q)) parsed limited))
        (check_stored-All lower id [] (sort rule_before rules) checked)

  -- A snapshot that parseRuntimeSnapshot returns is sorted by rule id without repeats, every rule
  -- is active, of the repository or global, within the limits, and a context rule unless it may
  -- enforce, and its checksum is that of its payload.
  pub parse_runtime_snapshot-IsSnapshot :
      (v : RuntimeSnapshot) {s : RuntimeSnapshot}
      → parse_runtime_snapshot lower checksum_payload byte_size is_iso v ≡ ok s
      → IsSnapshot s
  unfolding parse_runtime_snapshot
  parse_runtime_snapshot-IsSnapshot v {s} h =
      let (_, h1) = guard-eq-ok (is_signature_hash v.checksum) _ _ h in
      let (_, _, h2) = >>=-eq-ok (assert_string v.repository_id) _ h1 in
      let (_, _, h3) =
        >>=-eq-ok (assert_timestamp lower checksum_payload byte_size is_iso v.generated_at) _ h2 in
      let (_, h4) = guard-eq-ok (leb (length v.rules) max_rules) _ _ h3 in
      let (_, limits, h5) =
        >>=-eq-ok (assert_resource_limits lower checksum_payload byte_size is_iso v) _ h4 in
      let (parsed, read, h6) = >>=-eq-ok (parse_rules lower v.rules) _ h5 in
      let (same, each) = parse_rules-ok lower v.repository_id v.rules read in
      let rules = sort rule_before parsed in
      let (_, h7) = guard-eq-ok (texts_eq (rule_ids rules) (rule_ids v.rules)) _ _ h6 in
      let (_, checked, h8) = >>=-eq-ok (check_stored v.repository_id [] rules) _ h7 in
      let payload : SnapshotPayload = record {
        repository_id = v.repository_id;
        generated_at = v.generated_at;
        rules = rules;
      } in
      let (sealed, h9) = guard-eq-ok (checksum_payload payload == v.checksum) _ _ h8 in
      let snapshot : RuntimeSnapshot = record v { rules = rules } in
      let (_, _, done) =
        >>=-eq-ok (assert_snapshot_byte_limit lower checksum_payload byte_size is_iso snapshot) _
          h9 in
      subst IsSnapshot (ok-injective snapshot s done) (record {
        storable =
            IsStorable-sort v.repository_id parsed
              (subst (All (λ r. parse_rule lower r ≡ ok r)) same each)
              (subst (All (λ r. rule_within_limits r ≡ true)) same (limits_of v limits)) checked;
        sorted = sort-IsSorted rule_before rule_before-IsOrder parsed;
        distinct = (check_stored-IsDistinct v.repository_id [] rules checked).1;
        sealed = (==_iff (checksum_payload payload) v.checksum).0 sealed;
      })

  -- A snapshot that may be used, of good strings, count and size, is read back unchanged.
  pub parse_runtime_snapshot_complete :
      (s : RuntimeSnapshot)
      → IsSnapshot s
      → is_signature_hash s.checksum ≡ true
      → assert_string s.repository_id ≡ ok tt
      → assert_timestamp lower checksum_payload byte_size is_iso s.generated_at ≡ ok tt
      → leb (length s.rules) max_rules ≡ true
      → texts_within_limits (s.repository_id ∷ s.generated_at ∷ s.checksum ∷ []) ≡ true
      → assert_snapshot_byte_limit lower checksum_payload byte_size is_iso s ≡ ok tt
      → parse_runtime_snapshot lower checksum_payload byte_size is_iso s ≡ ok s
  unfolding parse_runtime_snapshot assert_resource_limits
  parse_runtime_snapshot_complete s good hex named dated few texts small =
      let limits : all rule_within_limits s.rules ≡ true =
        All-all rule_within_limits s.rules (All-mono s.rules (λ r h. h.limited) good.storable) in
      let read =
        parse_rules-All lower s.repository_id s.rules
          (All-mono s.rules (λ r h. h.parsed) good.storable) in
      let checked =
        check_stored-ok lower s.repository_id [] s.rules good.storable
          (All-of (λ x. refl) (rule_ids s.rules)) good.distinct in
      rw
        (
          hex,
          named,
          dated,
          few,
          texts,
          limits,
          read,
          sort_sorted rule_before s.rules good.sorted,
          texts_eq_refl (rule_ids s.rules),
          checked,
          good.sealed,
          ==_refl s.checksum,
          small,
        )
        refl
