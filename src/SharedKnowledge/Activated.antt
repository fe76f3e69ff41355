-- ===== src/SharedKnowledge/Activated.antt =====
-- Which activated entries are authoritative.
use mathlib.Core.Path.{subst}
use agent_experience_agentic.Common.{
  Text, List, ◌++◌, true, Option, none, some, ok, map, filter, sort, Memᴰ, ◌≡◌, arith, guard-eq-ok,
  ok-injective, All, All-append, All-map, All-self, All-sort, All-mem,
}
use agent_experience_agentic.SharedKnowledge.Promotion.{SharedKnowledgeDocument}
use agent_experience_agentic.SharedKnowledge.Activation.{
  ActivatedKnowledgeEntry, ActivatedKnowledge, as_local, as_trusted, is_commit, is_untrusted,
  entry_before, activate_git_knowledge,
}
use agent_experience_agentic.SharedKnowledge.RuntimeRules.{is_authoritative}

-- An authoritative entry is of a trusted document.
unfoldable IsTrustedEntry : List SharedKnowledgeDocument → ActivatedKnowledgeEntry → Type 0
IsTrustedEntry trusted e = is_authoritative e ≡ true → Memᴰ e.document trusted

pub activate_git_knowledge-trusted :
    (commit : Option Text) (trusted own : List SharedKnowledgeDocument) {a : ActivatedKnowledge}
    → activate_git_knowledge commit trusted own ≡ ok a
    → {e : ActivatedKnowledgeEntry} → Memᴰ e a.entries
    → is_authoritative e ≡ true
    → Memᴰ e.document trusted
unfolding activate_git_knowledge IsTrustedEntry
activate_git_knowledge-trusted none trusted own {a} h {e} m authoritative =
    let as_own =
      All-map (IsTrustedEntry trusted) as_local own (λ d x b. absurd (ground (arith, b)))
        (All-self own) in
    let all_own : All (IsTrustedEntry trusted) a.entries =
      subst (λ v. All (IsTrustedEntry trusted) v.entries)
        (ok-injective (record { trusted_commit = none; entries = map as_local own }) a h) as_own in
    All-mem (IsTrustedEntry trusted) a.entries m all_own authoritative
activate_git_knowledge-trusted (some commit) trusted own {a} h {e} m authoritative =
    let (_, made) = guard-eq-ok (is_commit commit) _ _ h in
    let others = filter (is_untrusted trusted) own in
    let as_own =
      All-map (IsTrustedEntry trusted) as_local others (λ d x b. absurd (ground (arith, b)))
        (All-self others) in
    let as_listed =
      All-map (IsTrustedEntry trusted) (as_trusted commit) trusted (λ d listed b. listed)
        (All-self trusted) in
    let joined =
      All-append (IsTrustedEntry trusted) (map (as_trusted commit) trusted) (map as_local others)
        as_listed as_own in
    let sorted =
      All-sort entry_before (IsTrustedEntry trusted)
        (map (as_trusted commit) trusted ++ map as_local others) joined in
    let activated : ActivatedKnowledge = record {
      trusted_commit = some commit;
      entries = sort entry_before (map (as_trusted commit) trusted ++ map as_local others);
    } in
    let all_entries : All (IsTrustedEntry trusted) a.entries =
      subst (λ v. All (IsTrustedEntry trusted) v.entries) (ok-injective activated a made) sorted in
    All-mem (IsTrustedEntry trusted) a.entries m all_entries authoritative
