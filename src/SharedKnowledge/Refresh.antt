-- ===== src/SharedKnowledge/Refresh.antt =====
-- The part of refreshKnowledgeRuntime of src/application/runtime-service.ts that makes the snapshot:
-- activation, runtime rules and compilation. Every error is the one of the service. What follows,
-- the storage of the snapshot, is input and output.
use mathlib.Core.Path.{subst}
use agent_experience_agentic.Common.{
  ℕ, Text, List, [], Bool, not, Option, none, some, Result, ok, err, ◌>>=◌, filter, Memᴰ, ◌≡◌, ◌≢◌,
  ◌⊎◌, inl, inr, ap, >>=-eq-ok, ok-injective, is_duplicate_free, All-mem, All-self, All-of_filter,
}
use agent_experience_agentic.Domain.Types.{observed, disputed}
use agent_experience_agentic.Runtime.Contracts.{RuntimeRule, conflict}
use agent_experience_agentic.Runtime.Snapshot.{SnapshotPayload, RuntimeSnapshot}
use agent_experience_agentic.Runtime.Snapshot.Parse.{is_context}
use agent_experience_agentic.Runtime.Snapshot.Compile.{
  SnapshotCompilation, compile_runtime_snapshot, compile_run,
}
use agent_experience_agentic.Runtime.Snapshot.Enforcing.{compile_runtime_snapshot-conflict}
use agent_experience_agentic.SharedKnowledge.Schema.{
  RuntimeDirective, assert_identity, parse_runtime_directive, parse_directive_signature,
  canonical_directive_token, canonical_directive_argument, canonical_directive_path, is_consistent,
  is_ascending,
}
use agent_experience_agentic.SharedKnowledge.Promotion.{SharedKnowledgeDocument}
use agent_experience_agentic.SharedKnowledge.Activation.{ActivatedKnowledge, activate_git_knowledge}
use agent_experience_agentic.SharedKnowledge.RuntimeRules.{
  ActivatedRuntimeCompilation, compile_activated_runtime_rules, rule_of, assert_repository_id,
  compile_entries, compile_entry, admit, directive_of, assert_applicability, effect_of,
}
use agent_experience_agentic.SharedKnowledge.Trusted.{
  IsRuleOf, compile_activated_runtime_rules-IsRuleOf, rule_of-conflict,
}
use agent_experience_agentic.SharedKnowledge.Activated.{activate_git_knowledge-trusted}

pub data RefreshError : Type 0 where
  knowledge_runtime_refresh_failed : RefreshError

abbrev pub as_refresh {κ} : {E : Type 0} {A : Type κ} → Result E A → Result RefreshError A
as_refresh (err e) = err knowledge_runtime_refresh_failed
as_refresh (ok a) = ok a

abbrev pub require_commit : Option Text → Result RefreshError Text
require_commit none = err knowledge_runtime_refresh_failed
require_commit (some commit) = ok commit

-- What the refresh reads: the commit that the trusted ref resolves to, and the documents of it and
-- of the working tree.
pub record RefreshInput : Type 0 where
  pub repository_id : Text
  pub generated_at : Text
  pub resolved : Option Text
  pub trusted : List SharedKnowledgeDocument
  pub own : List SharedKnowledgeDocument

abbrev pub is_context_rule : RuntimeRule → Bool
is_context_rule rule = is_context rule.effect

abbrev pub compilation_of : RefreshInput → List RuntimeRule → SnapshotCompilation
compilation_of input rules = record {
  repository_id = input.repository_id;
  generated_at = input.generated_at;
  global_rules = [];
  repository_rules = filter (λ r. not (is_context_rule r)) rules;
  context_rules = filter is_context_rule rules;
}

abbrev pub activated_of : RefreshInput → Text → ActivatedKnowledge → ActivatedRuntimeCompilation
activated_of input commit activated = record {
  repository_id = input.repository_id;
  trusted_commit = commit;
  entries = activated.entries;
}

-- A document of the trusted commit that asks for the rule.
pub record IsTrustedSource (input : RefreshInput) (r : RuntimeRule) : Type 0 where
  pub document : SharedKnowledgeDocument
  pub directive : RuntimeDirective
  pub trusted : Memᴰ document input.trusted
  pub declared : document.runtime_directive ≡ some directive
  pub opposes : directive.effect ≡ conflict
  pub undoubted : (document.state ≢ observed) × (document.state ≢ disputed)
  pub same_state : r.state ≡ document.state
  pub same_signature : r.signature ≡ directive.signature
  pub cited : r.reference.knowledge_id ≡ document.identity

as_refresh-eq-ok {κ} :
    {E : Type 0} {A : Type κ} (r : Result E A) {a : A} → as_refresh r ≡ ok a → r ≡ ok a
as_refresh-eq-ok (err e) h = cc
as_refresh-eq-ok (ok b) {a} h = ap ok (ok-injective b a h)

require_commit-ok : (o : Option Text) {c : Text} → require_commit o ≡ ok c → o ≡ some c
require_commit-ok none h = cc
require_commit-ok (some b) {c} h = ap some (ok-injective b c h)

listed_conflict :
    (input : RefreshInput) (rules : List RuntimeRule) (r : RuntimeRule)
    → Memᴰ r (compilation_of input rules).global_rules
      ⊎ Memᴰ r (compilation_of input rules).repository_rules
    → Memᴰ r rules
listed_conflict input rules r (inl m) = elim m [ ]
listed_conflict input rules r (inr m) =
    All-mem (λ x. Memᴰ x rules) (filter (λ x. not (is_context_rule x)) rules) m
      (All-of_filter (λ x. Memᴰ x rules) (λ x. not (is_context_rule x)) rules (All-self rules))

rule-IsTrustedSource :
    (input : RefreshInput) (commit : Text) (activated : ActivatedKnowledge) (r : RuntimeRule)
    → activate_git_knowledge input.resolved input.trusted input.own ≡ ok activated
    → IsRuleOf (activated_of input commit activated) activated.entries r
    → r.effect ≡ conflict
    → IsTrustedSource input r
unfolding rule_of
rule-IsTrustedSource input commit activated r started source blocks =
    let (authoritative, opposes, not_observed, not_disputed) =
      rule_of-conflict (activated_of input commit activated) source.entry source.directive
        (subst (λ x. x.effect ≡ conflict) source.made blocks) in
    record {
      document = source.entry.document;
      directive = source.directive;
      trusted =
          activate_git_knowledge-trusted input.resolved input.trusted input.own started
            source.listed authoritative;
      declared = source.declared;
      opposes = opposes;
      undoubted = (not_observed, not_disputed);
      same_state = ap (λ x. x.state) source.made;
      same_signature = ap (λ x. x.signature) source.made;
      cited = ap (λ x. x.reference.knowledge_id) source.made;
    }

module _ (lower : Text → Text) (arguments_safe : List Text → Text → Text → Bool)
    (is_safe : RuntimeDirective → Bool) (is_durable : Text → Bool)
    (checksum_payload : SnapshotPayload → Text) (byte_size : RuntimeSnapshot → ℕ)
    (is_iso : Text → Bool) where
  unfoldable pub refresh_snapshot : RefreshInput → Result RefreshError RuntimeSnapshot
  refresh_snapshot input = do
    activated ← as_refresh (activate_git_knowledge input.resolved input.trusted input.own)
    commit ← require_commit activated.trusted_commit
    rules ← as_refresh (
        compile_activated_runtime_rules lower arguments_safe is_safe is_durable
          (activated_of input commit activated))
    as_refresh (
        compile_runtime_snapshot lower checksum_payload byte_size is_iso
          (compilation_of input rules))

  -- A rule with the effect conflict in the snapshot that refreshKnowledgeRuntime makes comes from a
  -- document of the trusted commit that declares a directive with that effect and that signature,
  -- whose state is the state of the rule and neither observed nor disputed, and whose identity the
  -- rule cites.
  pub refresh_snapshot-IsTrustedSource :
      (input : RefreshInput) {s : RuntimeSnapshot}
      → refresh_snapshot input ≡ ok s
      → {r : RuntimeRule} → Memᴰ r s.rules
      → r.effect ≡ conflict
      → IsTrustedSource input r
  unfolding refresh_snapshot
  refresh_snapshot-IsTrustedSource input {s} h {r} m blocks =
      let (activated, started, h1) =
        >>=-eq-ok (as_refresh (activate_git_knowledge input.resolved input.trusted input.own)) _
          h in
      let (commit, _, h2) = >>=-eq-ok (require_commit activated.trusted_commit) _ h1 in
      let compilation = activated_of input commit activated in
      let (rules, ruled, h3) =
        >>=-eq-ok
          (as_refresh
            (compile_activated_runtime_rules lower arguments_safe is_safe is_durable compilation))
          _ h2 in
      let (_, sources) =
        compile_runtime_snapshot-conflict lower checksum_payload byte_size is_iso
          (compilation_of input rules) (as_refresh-eq-ok _ h3) m blocks in
      let source =
        All-mem (IsRuleOf compilation activated.entries) rules
          (listed_conflict input rules r sources)
          (compile_activated_runtime_rules-IsRuleOf lower arguments_safe is_safe is_durable
            compilation (as_refresh-eq-ok _ ruled)) in
      rule-IsTrustedSource input commit activated r (as_refresh-eq-ok _ started) source blocks

  -- Opens all that a refresh computes by.
  unfoldable pub refresh_run : Unit {0}
  unfolding refresh_snapshot activate_git_knowledge compile_activated_runtime_rules
      assert_repository_id compile_entries compile_entry admit assert_identity directive_of
      parse_runtime_directive parse_directive_signature canonical_directive_token
      canonical_directive_argument canonical_directive_path assert_applicability is_consistent
      is_ascending rule_of effect_of is_duplicate_free compile_run
  refresh_run = tt
