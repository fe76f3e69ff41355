-- ===== src/Runtime/Snapshot/Compiled.antt =====
-- What `compileRuntimeSnapshot` puts into a snapshot, and that the snapshot is read back.
use mathlib.Core.Path.{subst}
use agent_experience_agentic.Common.{
  ℕ, Text, List, [], ◌∷◌, Bool, true, not, ◌||◌, ok, length, leb, filter, sort, ◌≡◌, refl, sym,
  arith, >>=-eq-ok, guard-eq-ok, ok-injective, All, All-both, All-sort, sort-IsSorted,
}
use agent_experience_agentic.Runtime.Contracts.{RuntimeRule}
use agent_experience_agentic.Runtime.Snapshot.{
  SnapshotPayload, RuntimeSnapshot, payload_of, max_rules, max_string_length, assert_string,
  texts_within_limits, parse_rule, parse_rules, rule_before,
}
use agent_experience_agentic.Runtime.Snapshot.Parse.{
  assert_timestamp, assert_snapshot_byte_limit, parse_runtime_snapshot,
}
use agent_experience_agentic.Runtime.Snapshot.Compile.{
  SnapshotCompilation, is_global, is_of, is_here, selected_rules, check_rule_ids,
  assert_compilation_input_limits, assert_authoritative_input, assert_context_input,
  compile_runtime_snapshot,
}
use agent_experience_agentic.Runtime.Snapshot.Storable.{
  IsStorable, parse_rules-ok, rule_before-IsOrder,
}
use agent_experience_agentic.Runtime.Override.{is_signature_hash}
use agent_experience_agentic.Runtime.Snapshot.Accepted.{IsSnapshot, parse_runtime_snapshot_complete}
use agent_experience_agentic.Runtime.Snapshot.Selection.{
  IsSelected, limits_of, selected_rules-IsSelected, check_rule_ids-IsDistinct,
}

module _ (lower : Text → Text) (checksum_payload : SnapshotPayload → Text)
    (byte_size : RuntimeSnapshot → ℕ) (is_iso : Text → Bool) where
  short_checksum : (c : Text) → is_signature_hash c ≡ true → leb (length c) max_string_length ≡ true
  unfolding is_signature_hash
  short_checksum c h = ground arith

  short_texts :
      (a b c : Text)
      → texts_within_limits (a ∷ b ∷ []) ≡ true
      → is_signature_hash c ≡ true
      → texts_within_limits (b ∷ a ∷ c ∷ []) ≡ true
  short_texts a b c h k = let l = short_checksum c k in ground arith

  sort-IsStorable :
      (id : Text) (rules : List RuntimeRule)
      → All (λ r. parse_rule lower r ≡ ok r) rules
      → All (IsSelected id) rules
      → All (IsStorable lower id) (sort rule_before rules)
  sort-IsStorable id rules parsed chosen = All-sort rule_before _ rules (
      All-both {P = λ r. parse_rule lower r ≡ ok r} {Q = IsSelected id} rules
        (λ r a b. record {
          parsed = a;
          active = b.1;
          contextual = b.2;
          here = b.0.0;
          limited = b.0.1;
        })
        parsed chosen)

  -- The snapshot of rules that are read and checked.
  abbrev pub snapshot_of : SnapshotCompilation → List RuntimeRule → RuntimeSnapshot
  snapshot_of input rules =
      let payload : SnapshotPayload = record {
        repository_id = input.repository_id;
        generated_at = input.generated_at;
        rules = rules;
      } in
      record {
        repository_id = input.repository_id;
        generated_at = input.generated_at;
        rules = rules;
        checksum = checksum_payload payload;
      }

  -- What a compilation of rules to a snapshot has passed.
  pub record IsCompilation (input : SnapshotCompilation) (selected : List RuntimeRule)
      (s : RuntimeSnapshot) : Type 0 where
    pub named : assert_string input.repository_id ≡ ok tt
    pub dated : assert_timestamp lower checksum_payload byte_size is_iso input.generated_at ≡ ok tt
    pub limited : assert_compilation_input_limits input ≡ ok tt
    pub new : check_rule_ids [] (sort rule_before selected) ≡ ok tt
    pub few : leb (length (sort rule_before selected)) max_rules ≡ true
    pub small :
        assert_snapshot_byte_limit lower checksum_payload byte_size is_iso
          (snapshot_of input (sort rule_before selected))
        ≡ ok tt
    pub made : snapshot_of input (sort rule_before selected) ≡ s

  pub compile_runtime_snapshot-IsCompilation :
      (input : SnapshotCompilation) {s : RuntimeSnapshot}
      → compile_runtime_snapshot lower checksum_payload byte_size is_iso input ≡ ok s
      → IsCompilation input (selected_rules input) s
        × All (λ r. parse_rule lower r ≡ ok r) (selected_rules input)
  unfolding compile_runtime_snapshot
  compile_runtime_snapshot-IsCompilation input {s} h =
      let id = input.repository_id in
      let (_, named, h1) = >>=-eq-ok (assert_string id) _ h in
      let (_, dated, h2) =
        >>=-eq-ok (assert_timestamp lower checksum_payload byte_size is_iso input.generated_at) _
          h1 in
      let (_, limited, h3) = >>=-eq-ok (assert_compilation_input_limits input) _ h2 in
      let (_, _, h4) =
        >>=-eq-ok (assert_authoritative_input lower is_global input.global_rules) _ h3 in
      let (_, _, h5) =
        >>=-eq-ok
          (assert_authoritative_input lower (λ r. not (is_global r))
            (filter (λ r. is_global r || is_of id r) input.repository_rules))
          _ h4 in
      let (_, _, h6) =
        >>=-eq-ok (assert_context_input lower (filter (is_here id) input.context_rules)) _ h5 in
      let (parsed, read, h7) = >>=-eq-ok (parse_rules lower (selected_rules input)) _ h6 in
      let (same, each) = parse_rules-ok lower id (selected_rules input) read in
      let rules = sort rule_before parsed in
      let (_, new, h8) = >>=-eq-ok (check_rule_ids [] rules) _ h7 in
      let (few, h9) = guard-eq-ok (leb (length rules) max_rules) _ _ h8 in
      let snapshot = snapshot_of input rules in
      let (_, small, done) =
        >>=-eq-ok (assert_snapshot_byte_limit lower checksum_payload byte_size is_iso snapshot) _
          h9 in
      (
        subst (λ rs. IsCompilation input rs s) (sym same)
            (record {
              named = named;
              dated = dated;
              limited = limited;
              new = new;
              few = few;
              small = small;
              made = ok-injective snapshot s done;
            }),
        each,
      )

  -- Where the hash writes 64 hexadecimal digits, parseRuntimeSnapshot accepts every snapshot that
  -- compileRuntimeSnapshot makes and returns it unchanged.
  pub parse_runtime_snapshot-compile_runtime_snapshot :
      ((p : SnapshotPayload) → is_signature_hash (checksum_payload p) ≡ true)
      → (input : SnapshotCompilation) {s : RuntimeSnapshot}
      → compile_runtime_snapshot lower checksum_payload byte_size is_iso input ≡ ok s
      → parse_runtime_snapshot lower checksum_payload byte_size is_iso s ≡ ok s
  parse_runtime_snapshot-compile_runtime_snapshot hex input {s} h =
      let id = input.repository_id in
      let selected = selected_rules input in
      let (run, each) = compile_runtime_snapshot-IsCompilation input h in
      let snapshot = snapshot_of input (sort rule_before selected) in
      let good : IsSnapshot lower checksum_payload byte_size is_iso snapshot = record {
        storable = sort-IsStorable id selected each (selected_rules-IsSelected input run.limited);
        sorted = sort-IsSorted rule_before rule_before-IsOrder selected;
        distinct = (check_rule_ids-IsDistinct [] (sort rule_before selected) run.new).1;
        sealed = refl;
      } in
      let sealed = hex (payload_of snapshot) in
      let texts =
        short_texts input.generated_at id snapshot.checksum (limits_of input run.limited).3
          sealed in
      subst (λ v. parse_runtime_snapshot lower checksum_payload byte_size is_iso v ≡ ok v) run.made
        (parse_runtime_snapshot_complete lower checksum_payload byte_size is_iso snapshot good
          sealed run.named run.dated run.few texts run.small)
