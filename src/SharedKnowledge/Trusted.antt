-- ===== src/SharedKnowledge/Trusted.antt =====
-- Where the rules of activated documents come from.
use mathlib.Core.Path.{subst}
use agent_experience_agentic.Common.{
  Text, ◌==◌, List, [], ◌∷◌, ◌++◌, Bool, true, not, Option, none, some, ok, any, leb, length, sort,
  Memᴰ, ◌≡◌, ◌≢◌, refl, sym, ap, ◌∙◌, ◌>>=◌, arith, >>=-eq-ok, guard-eq-ok, ok-injective, All,
  All-mono, All-append, All-sort,
}
use agent_experience_agentic.Domain.Types.{observed, disputed, state_eq}
use agent_experience_agentic.Runtime.Contracts.{conflict, RuntimeRule}
use agent_experience_agentic.Runtime.Snapshot.{rule_before}
use agent_experience_agentic.SharedKnowledge.Schema.{
  RuntimeDirective, assert_identity, parse_runtime_directive, parse_directive_signature,
}
use agent_experience_agentic.SharedKnowledge.Promotion.{SharedKnowledgeDocument}
use agent_experience_agentic.SharedKnowledge.Activation.{ActivatedKnowledgeEntry}
use agent_experience_agentic.SharedKnowledge.RuntimeRules.{
  ActivatedRuntimeCompilation, is_at, is_authoritative, assert_repository_id, assert_applicability,
  effect_of, rule_of, directive_of, admit, compile_entry, seen_after, is_trusted_commit,
  compile_entries, compile_activated_runtime_rules,
}

-- The rule is that of a listed entry and its document's directive.
pub record IsRuleOf (input : ActivatedRuntimeCompilation) (entries : List ActivatedKnowledgeEntry)
    (r : RuntimeRule) : Type 0 where
  pub entry : ActivatedKnowledgeEntry
  pub directive : RuntimeDirective
  pub listed : Memᴰ entry entries
  pub declared : entry.document.runtime_directive ≡ some directive
  pub made : r ≡ rule_of input entry directive

directive_of-declared :
    (input : ActivatedRuntimeCompilation) (d : SharedKnowledgeDocument) {v : RuntimeDirective}
    → directive_of input d ≡ some v
    → d.runtime_directive ≡ some v
unfolding directive_of
directive_of-declared input d {v} e = ground arith

IsRuleOf-cons :
    (input : ActivatedRuntimeCompilation) (e : ActivatedKnowledgeEntry)
    (entries : List ActivatedKnowledgeEntry) (r : RuntimeRule)
    → IsRuleOf input entries r
    → IsRuleOf input (e ∷ entries) r
IsRuleOf-cons input e entries r h = record {
  entry = h.entry;
  directive = h.directive;
  listed = Memᴰ.tail h.listed;
  declared = h.declared;
  made = h.made;
}

module _ (lower : Text → Text) (arguments_safe : List Text → Text → Text → Bool)
    (is_safe : RuntimeDirective → Bool) where
  parse_runtime_directive-eq :
      (v : RuntimeDirective) {d : RuntimeDirective}
      → parse_runtime_directive lower arguments_safe is_safe v ≡ ok d
      → v ≡ d
  unfolding parse_runtime_directive
  parse_runtime_directive-eq v {d} h =
      let (_, _, h1) =
        >>=-eq-ok (parse_directive_signature lower arguments_safe is_safe v.signature) _ h in
      let (_, h2) = guard-eq-ok (is_safe v) _ _ h1 in ok-injective v d h2

  admit-IsRuleOf :
      (input : ActivatedRuntimeCompilation) (seen : List Text) (e : ActivatedKnowledgeEntry)
      (entries : List ActivatedKnowledgeEntry) (v : RuntimeDirective) {r : RuntimeRule}
      → e.document.runtime_directive ≡ some v
      → admit lower arguments_safe is_safe input seen e v ≡ ok r
      → IsRuleOf input (e ∷ entries) r
  unfolding admit
  admit-IsRuleOf input seen e entries v {r} declared h =
      let (_, h1) = guard-eq-ok (not (any (◌==◌ e.document.identity) seen)) _ _ h in
      let (d, parsed, h2) =
        >>=-eq-ok (parse_runtime_directive lower arguments_safe is_safe v) _ h1 in
      let (_, _, h3) = >>=-eq-ok (assert_applicability e.document.applicability d) _ h2 in
      record {
        entry = e;
        directive = d;
        listed = Memᴰ.head refl;
        declared = declared ∙ ap some (parse_runtime_directive-eq v parsed);
        made = sym (ok-injective (rule_of input e d) r h3);
      }

  compile_entry-IsRuleOf :
      (input : ActivatedRuntimeCompilation) (seen : List Text) (e : ActivatedKnowledgeEntry)
      (entries : List ActivatedKnowledgeEntry) {rules : List RuntimeRule}
      → compile_entry lower arguments_safe is_safe input seen e ≡ ok rules
      → All (IsRuleOf input (e ∷ entries)) rules
  unfolding compile_entry
  compile_entry-IsRuleOf input seen e entries {rules} h =
      let (_, h1) = guard-eq-ok (is_at input.trusted_commit e.provenance) _ _ h in
      let (_, _, h2) = >>=-eq-ok (assert_identity e.document.identity) _ h1 in
      by_directive (directive_of input e.document) refl h2
    where
      by_directive :
          (o : Option RuntimeDirective)
          → directive_of input e.document ≡ o
          → elim o [
            | none ↦ ok []
            | some value ↦
                ◌>>=◌
                  (admit lower arguments_safe is_safe input seen e value)
                  (λ rule. ok (rule ∷ []))
          ]
            ≡ ok rules
          → All (IsRuleOf input (e ∷ entries)) rules
      by_directive none x k =
          subst (All (IsRuleOf input (e ∷ entries))) (ok-injective [] rules k) tt
      by_directive (some v) x k =
          let (r, made, done) = >>=-eq-ok (admit lower arguments_safe is_safe input seen e v) _ k in
          subst (All (IsRuleOf input (e ∷ entries))) (ok-injective (r ∷ []) rules done) (
            admit-IsRuleOf input seen e entries v (directive_of-declared input e.document x) made,
            tt,
          )

  compile_entries-IsRuleOf :
      (input : ActivatedRuntimeCompilation) (seen : List Text)
      (entries : List ActivatedKnowledgeEntry) {rules : List RuntimeRule}
      → compile_entries lower arguments_safe is_safe input seen entries ≡ ok rules
      → All (IsRuleOf input entries) rules
  unfolding compile_entries
  compile_entries-IsRuleOf input seen [] {rules} h =
      subst (All (IsRuleOf input [])) (ok-injective [] rules h) tt
  compile_entries-IsRuleOf input seen (e ∷ entries) {rules} h =
      let (first, one, h1) =
        >>=-eq-ok (compile_entry lower arguments_safe is_safe input seen e) _ h in
      let (rest, more, done) =
        >>=-eq-ok
          (compile_entries lower arguments_safe is_safe input (seen_after first e seen) entries) _
          h1 in
      subst (All (IsRuleOf input (e ∷ entries))) (ok-injective (first ++ rest) rules done) (
        All-append (IsRuleOf input (e ∷ entries)) first rest
          (compile_entry-IsRuleOf input seen e entries one)
          (All-mono rest (IsRuleOf-cons input e entries)
            (compile_entries-IsRuleOf input (seen_after first e seen) entries more)))

  -- Every rule comes from a listed document.
  pub compile_activated_runtime_rules-IsRuleOf :
      (is_durable : Text → Bool) (input : ActivatedRuntimeCompilation) {rules : List RuntimeRule}
      → compile_activated_runtime_rules lower arguments_safe is_safe is_durable input ≡ ok rules
      → All (IsRuleOf input input.entries) rules
  unfolding compile_activated_runtime_rules
  compile_activated_runtime_rules-IsRuleOf is_durable input {rules} h =
      let (_, _, h1) = >>=-eq-ok (assert_repository_id is_durable input.repository_id) _ h in
      let (_, h2) = guard-eq-ok (is_trusted_commit input.trusted_commit) _ _ h1 in
      let (_, h3) = guard-eq-ok (leb (length input.entries) 1000) _ _ h2 in
      let (found, compiled, done) =
        >>=-eq-ok (compile_entries lower arguments_safe is_safe input [] input.entries) _ h3 in
      subst (All (IsRuleOf input input.entries)) (ok-injective (sort rule_before found) rules done)
        (All-sort rule_before (IsRuleOf input input.entries) found
          (compile_entries-IsRuleOf input [] input.entries compiled))

-- A rule that can block is of an authoritative entry.
pub rule_of-conflict :
    (input : ActivatedRuntimeCompilation) (e : ActivatedKnowledgeEntry) (d : RuntimeDirective)
    → (rule_of input e d).effect ≡ conflict
    → (is_authoritative e ≡ true)
      × (d.effect ≡ conflict)
      × (e.document.state ≢ observed)
      × (e.document.state ≢ disputed)
unfolding rule_of effect_of state_eq
rule_of-conflict input e d h = (ground arith, ground arith, ground arith, ground arith)
