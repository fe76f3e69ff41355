-- ===== src/SharedKnowledge/RuntimeRules.antt =====
-- src/shared-knowledge/runtime-compiler.ts: activated documents to runtime rules. The parameters
-- are those of the schema, and `is_durable` of assertDurableTextSafe on the repository's id.
use agent_experience_agentic.Common.{
  Text, codes, ◌==◌, List, [], ◌∷◌, ◌++◌, Bool, true, false, not, ◌&&◌, ◌||◌, if◌then◌else◌, Option,
  none, some, Result, ok, ◌>>=◌, ◌>>◌, guard, all, any, length, leb, nat_eq, trim, is_empty, sort,
  is_duplicate_free, ◌≡◌, arith,
}
use agent_experience_agentic.Domain.Types.{observed, disputed, state_eq}
use agent_experience_agentic.Runtime.Contracts.{
  repository, RuleEffect, conflict, context, RuntimeRule,
}
use agent_experience_agentic.Runtime.Matcher.{signature_path, signature_tool}
use agent_experience_agentic.Runtime.Override.{is_hex_digit}
use agent_experience_agentic.Runtime.Snapshot.{active_rule_states, rule_before}
use agent_experience_agentic.Runtime.Snapshot.Parse.{is_context}
use agent_experience_agentic.Domain.Transitions.{includes}
use agent_experience_agentic.SharedKnowledge.Schema.{
  KnowledgeError, invalid_repository, invalid_commit, entry_limit, inconsistent_commit,
  duplicate_identity, inconsistent_tool, inconsistent_path, tags_not_canonical,
  KnowledgeApplicability, RuntimeDirective, assert_identity, is_consistent, is_ascending,
  assert_canonical_v3_applicability, parse_runtime_directive,
}
use agent_experience_agentic.SharedKnowledge.Promotion.{SharedKnowledgeDocument}
use agent_experience_agentic.SharedKnowledge.Activation.{
  Provenance, trusted_ref, working_tree, ActivatedKnowledgeEntry,
}

pub record ActivatedRuntimeCompilation : Type 0 where
  pub repository_id : Text
  pub trusted_commit : Text
  pub entries : List ActivatedKnowledgeEntry

abbrev pub is_from_trusted : Provenance → Bool
is_from_trusted (trusted_ref _) = true
is_from_trusted working_tree = false

abbrev pub is_at : Text → Provenance → Bool
is_at commit working_tree = true
is_at commit (trusted_ref none) = false
is_at commit (trusted_ref (some c)) = c == commit

-- `commitPattern`.
abbrev pub is_trusted_commit : Text → Bool
is_trusted_commit commit =
    leb 40 (length commit) && (leb (length commit) 64 && all is_hex_digit commit)

unfoldable pub assert_repository_id :
    (is_durable : Text → Bool) → Text → Result KnowledgeError (Unit {0})
assert_repository_id is_durable value =
    guard
      (not (is_empty value)
        && (leb (length value) 4096
            && (value == trim value
                && (not (any (λ c. nat_eq c 0 || nat_eq c 13 || nat_eq c 10) value)
                    && is_durable value))))
      invalid_repository

unfoldable pub assert_applicability :
    KnowledgeApplicability → RuntimeDirective → Result KnowledgeError (Unit {0})
assert_applicability applicability directive = do
  guard (is_consistent applicability.tools (signature_tool directive.signature)) inconsistent_tool
  guard (is_consistent applicability.paths (signature_path directive.signature)) inconsistent_path
  guard (is_duplicate_free applicability.tags && is_ascending applicability.tags) tags_not_canonical

-- A field that the rule has where the document's list is not empty.
abbrev unless_empty {ℓ} : {A : Type ℓ} → List Text → Option A → Option A
unless_empty [] value = none
unless_empty (_ ∷ _) value = value

abbrev pub is_authoritative : ActivatedKnowledgeEntry → Bool
is_authoritative entry = entry.authoritative && is_from_trusted entry.provenance

unfoldable pub effect_of : ActivatedKnowledgeEntry → RuntimeDirective → RuleEffect
effect_of entry directive =
    if not (is_authoritative entry)
      || is_context directive.effect
      || state_eq entry.document.state observed
      || state_eq entry.document.state disputed
    then context
    else conflict

abbrev source_of : Text → Provenance → Text
source_of commit (trusted_ref _) = codes "trusted-ref:" ++ commit
source_of commit working_tree = codes "working-tree"

-- The rule of an entry and its parsed directive.
unfoldable pub rule_of :
    ActivatedRuntimeCompilation → ActivatedKnowledgeEntry → RuntimeDirective → RuntimeRule
rule_of input entry directive =
    let document = entry.document in
    record {
      id = codes "shared:" ++ document.identity;
      state = document.state;
      authoritative = is_authoritative entry;
      effect = effect_of entry directive;
      signature = directive.signature;
      applicability = record {
        scope = repository input.repository_id;
        tool = unless_empty document.applicability.tools (signature_tool directive.signature);
        path = unless_empty document.applicability.paths (signature_path directive.signature);
        tags = unless_empty document.applicability.tags (some document.applicability.tags);
      };
      reference = record {
        knowledge_id = document.identity;
        evidence_ids = [];
        source = some (source_of input.trusted_commit entry.provenance);
      };
    }

-- Documents of other scopes, without a directive or not active are skipped.
unfoldable pub directive_of :
    ActivatedRuntimeCompilation → SharedKnowledgeDocument → Option RuntimeDirective
directive_of input document =
    if not (document.repository_scope == codes "repository:" ++ input.repository_id)
      || not (includes active_rule_states document.state)
    then none
    else document.runtime_directive

abbrev pub seen_after : List RuntimeRule → ActivatedKnowledgeEntry → List Text → List Text
seen_after [] entry seen = seen
seen_after (_ ∷ _) entry seen = entry.document.identity ∷ seen

module _ (lower : Text → Text) (arguments_safe : List Text → Text → Text → Bool)
    (is_safe : RuntimeDirective → Bool) where
  -- The rule of an entry with a directive.
  unfoldable pub admit :
      ActivatedRuntimeCompilation
      → List Text
      → ActivatedKnowledgeEntry
      → RuntimeDirective
      → Result KnowledgeError RuntimeRule
  admit input seen entry value = do
    guard (not (any (◌==◌ entry.document.identity) seen)) duplicate_identity
    directive ← parse_runtime_directive lower arguments_safe is_safe value
    assert_applicability entry.document.applicability directive
    ok (rule_of input entry directive)

  -- The body of the loop: the rules that it adds.
  unfoldable pub compile_entry :
      ActivatedRuntimeCompilation
      → List Text
      → ActivatedKnowledgeEntry
      → Result KnowledgeError (List RuntimeRule)
  compile_entry input seen entry = do
    guard (is_at input.trusted_commit entry.provenance) inconsistent_commit
    assert_identity entry.document.identity
    elim (directive_of input entry.document) [
      | none ↦ ok []
      | some value ↦ do rule ← admit input seen entry value; ok (rule ∷ [])
    ]

  -- The loop over the entries, with the identities that it has seen.
  unfoldable pub compile_entries :
      ActivatedRuntimeCompilation
      → List Text
      → List ActivatedKnowledgeEntry
      → Result KnowledgeError (List RuntimeRule)
  compile_entries input seen [] = ok []
  compile_entries input seen (entry ∷ entries) = do
    rules ← compile_entry input seen entry
    rest ← compile_entries input (seen_after rules entry seen) entries
    ok (rules ++ rest)

  unfoldable pub compile_activated_runtime_rules :
      (is_durable : Text → Bool)
      → ActivatedRuntimeCompilation
      → Result KnowledgeError (List RuntimeRule)
  compile_activated_runtime_rules is_durable input = do
    assert_repository_id is_durable input.repository_id
    guard (is_trusted_commit input.trusted_commit) invalid_commit
    guard (leb (length input.entries) 1000) entry_limit
    rules ← compile_entries input [] input.entries
    ok (sort rule_before rules)

-- A canonical applicability of a version 3 entry passes the check of the compiler.
pub assert_canonical_v3_applicability-assert_applicability :
    (lower : Text → Text) (a : KnowledgeApplicability) (d : RuntimeDirective)
    → assert_canonical_v3_applicability lower a (some d) ≡ ok tt
    → assert_applicability a d ≡ ok tt
unfolding assert_canonical_v3_applicability assert_applicability
assert_canonical_v3_applicability-assert_applicability lower a d h = ground (arith, h)
