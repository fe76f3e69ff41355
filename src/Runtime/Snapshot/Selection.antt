-- ===== src/Runtime/Snapshot/Selection.antt =====
-- What the selection of `compileRuntimeSnapshot` gives, and what its loop over the ids checks.
use agent_experience_agentic.Common.{
  Text, ◌==◌, List, [], ◌∷◌, Bool, true, false, not, ◌&&◌, ok, all, any, filter, ◌≡◌, refl, arith,
  guard-eq-ok, All, All-both, All-append, All-map, All-filter, All-of_filter, all-All, IsDistinct,
  fresh-cons, Bool-cases, inl, inr, ◌⊎◌,
}
use agent_experience_agentic.Runtime.Contracts.{Scope, global, repository, context, RuntimeRule}
use agent_experience_agentic.Runtime.Snapshot.{
  is_active, is_context_only, rule_within_limits, texts_within_limits,
}
use agent_experience_agentic.Runtime.Snapshot.Parse.{rule_ids, is_local}
use agent_experience_agentic.Runtime.Snapshot.Compile.{
  SnapshotCompilation, is_global, is_of, is_here, as_context, demote, selected_rules,
  check_rule_ids, assert_compilation_input_limits,
}
use agent_experience_agentic.Runtime.Snapshot.Storable.{of_not-true}

-- A rule that a source may give to a snapshot of the repository.
abbrev pub IsLocal : Text → RuntimeRule → Type 0
IsLocal id r = (is_local id r.applicability.scope ≡ true) × (rule_within_limits r ≡ true)

-- A rule that the selection gives.
abbrev pub IsSelected : Text → RuntimeRule → Type 0
IsSelected id r =
    IsLocal id r × (is_active r ≡ true) × ((is_context_only r ≡ false) ⊎ (r.effect ≡ context))

of_global :
    (s : Scope) (b : Bool) (id : Text)
    → elim s [ global ↦ true | repository _ ↦ false ] && b ≡ true
    → is_local id s ≡ true
of_global global b id k = refl
of_global (repository r) b id k = ground arith

of_repository :
    (s : Scope) (b : Bool) (id : Text)
    → b && elim s [ global ↦ false | repository r ↦ r == id ] ≡ true
    → is_local id s ≡ true
of_repository global b id k = refl
of_repository (repository r) b id k = ground arith

of_both : (b c : Bool) → b && c ≡ true → (b ≡ true) × (c ≡ true)
of_both b c h = ground arith

demote-IsSelected :
    (id : Text) (r : RuntimeRule) → (is_active r ≡ true) → IsLocal id r → IsSelected id (demote r)
unfolding demote is_active is_context_only rule_within_limits
demote-IsSelected id r a l = elim (Bool-cases (is_context_only r)) [
  | inl t ↦ rw t (l, a, inr refl)
  | inr f ↦ rw f (l, a, inl f)
]

-- The rules of one source that pass the test of the source.
filter-IsLocal :
    (id : Text) (test : RuntimeRule → Bool) (rules : List RuntimeRule)
    → ((r : RuntimeRule) → test r ≡ true → is_local id r.applicability.scope ≡ true)
    → all rule_within_limits rules ≡ true
    → All (IsLocal id) (filter test rules)
filter-IsLocal id test rules here limits =
    All-both {P = λ r. test r ≡ true} {Q = λ r. rule_within_limits r ≡ true} (filter test rules)
      (λ r a b. (here r a, b)) (All-filter test rules)
      (All-of_filter _ test rules (all-All rule_within_limits rules limits))

pub limits_of :
    (input : SnapshotCompilation)
    → assert_compilation_input_limits input ≡ ok tt
    → (all rule_within_limits input.global_rules ≡ true)
      × (all rule_within_limits input.repository_rules ≡ true)
      × (all rule_within_limits input.context_rules ≡ true)
      × (texts_within_limits (input.generated_at ∷ input.repository_id ∷ []) ≡ true)
unfolding assert_compilation_input_limits
limits_of input h = ground arith

as_context-IsLocal : (id : Text) (r : RuntimeRule) → IsLocal id r → IsLocal id (as_context r)
unfolding rule_within_limits
as_context-IsLocal id r l = l

pub selected_rules-IsSelected :
    (input : SnapshotCompilation)
    → assert_compilation_input_limits input ≡ ok tt
    → All (IsSelected input.repository_id) (selected_rules input)
unfolding selected_rules
selected_rules-IsSelected input h =
    let id = input.repository_id in
    let (first, second, third, _) = limits_of input h in
    let globals =
      filter-IsLocal id (λ r. is_global r && r.authoritative) input.global_rules
        (λ r t. of_global r.applicability.scope r.authoritative id t) first in
    let locals =
      filter-IsLocal id (λ r. r.authoritative && is_of id r) input.repository_rules
        (λ r t. of_repository r.applicability.scope r.authoritative id t) second in
    let contexts =
      All-map (IsLocal id) as_context (filter (is_here id) input.context_rules)
        (as_context-IsLocal id)
        (filter-IsLocal id (is_here id) input.context_rules (λ r t. t) third) in
    let sources =
      All-append (IsLocal id) _ _ globals (All-append (IsLocal id) _ _ locals contexts) in
    All-map {P = λ r. (is_active r ≡ true) × IsLocal id r} (IsSelected id) demote _
      (λ r a. demote-IsSelected id r a.0 a.1)
      (All-both _ (λ r a b. (a, b)) (All-filter is_active _)
        (All-of_filter (IsLocal id) is_active _ sources))

pub check_rule_ids-IsDistinct :
    (seen : List Text) (rules : List RuntimeRule)
    → check_rule_ids seen rules ≡ ok tt
    → All (λ x. any (◌==◌ x) seen ≡ false) (rule_ids rules) × IsDistinct (rule_ids rules)
unfolding check_rule_ids
check_rule_ids-IsDistinct seen [] h = (tt, tt)
check_rule_ids-IsDistinct seen (r ∷ rs) h =
    let (new, h1) = guard-eq-ok (not (any (◌==◌ r.id) seen)) _ _ h in
    let (later, rest) = check_rule_ids-IsDistinct (r.id ∷ seen) rs h1 in
    let (fresh, apart) = fresh-cons r.id seen (rule_ids rs) later in
    ((of_not-true (any (◌==◌ r.id) seen) new, fresh), (apart, rest))
