-- ===== src/Runtime/Matcher/Laws.antt =====
-- `matchRules` returns the applicable rules, all of them and no other, strongest first.
use agent_experience_agentic.Common.{
  Text, ==_sound, List, [], ◌∷◌, ◌++◌, true, ◌≡◌, refl, ◌↔◌, ◌⊎◌, inl, inr, Option, none, some,
  arith, ok, >>=-eq-ok, All, All-mem, All-append, All-mono, Memᴰ, sort, sort-Perm, sort-IsSorted,
  All-sort, IsSorted,
}
use mathlib.Core.List.{Mem, mem-append_left, mem-append_right, mem-cons_self}
use mathlib.Core.List.Perm
use agent_experience_agentic.Runtime.Contracts.{
  MatchStrength, exact, RuntimeInput, RuntimeRule, RuleMatch, Scope, repository, global,
}
use agent_experience_agentic.Runtime.Matcher.{
  CanonicalSignature, scope_applies, scope_admits, declared_applicability_matches, match_strength,
  matched, match_rule, collect_matches, match_rules, match_before, check_path, signature_path,
  canonical_signature, same_kind,
}
use agent_experience_agentic.Runtime.Matcher.Equality.{signature_eq_iff}
use agent_experience_agentic.Runtime.Matcher.Order.{match_before-IsOrder}

module _ (lower : Text → Text) (input : RuntimeInput) where
  -- The rule is in scope, its constraints hold, and the match has the strength found for it.
  pub record Applies (m : RuleMatch) : Type 0 where
    pub in_scope : scope_applies input m.rule ≡ true
    pub declared : declared_applicability_matches lower input m.rule ≡ ok true
    pub strong : match_strength lower input m.rule ≡ ok (some m.strength)
    pub class : m.operation_class ≡ input.operation_class

  match_rule_cases :
      (rule : RuntimeRule) {ms : List RuleMatch}
      → match_rule lower input rule ≡ ok ms
      → (ms ≡ [])
        ⊎ ((s : MatchStrength) × (scope_applies input rule ≡ true)
            × (declared_applicability_matches lower input rule ≡ ok true)
            × (match_strength lower input rule ≡ ok (some s))
            × (ms ≡ matched input rule (some s)))
  unfolding match_rule
  match_rule_cases rule {ms} h = ground arith

  match_rule_sound :
      (rule : RuntimeRule) {ms : List RuleMatch}
      → match_rule lower input rule ≡ ok ms
      → All (λ m. (m.rule ≡ rule) × Applies m) ms
  match_rule_sound rule {ms} h = elim (match_rule_cases rule h) [
    | inl nothing ↦ rw nothing tt
    | inr (s, scope, declared, strong, e) ↦ rw e (
      (refl, record { in_scope = scope; declared = declared; strong = strong; class = refl }),
      tt,
    )
  ]

  match_rule_complete : (m : RuleMatch) → Applies m → match_rule lower input m.rule ≡ ok (m ∷ [])
  unfolding match_rule
  match_rule_complete m a = rw (a.in_scope, a.declared, a.strong) (ground arith)

  collect_matches_cons :
      (rule : RuntimeRule) (rules : List RuntimeRule) {ms : List RuleMatch}
      → collect_matches lower input (rule ∷ rules) ≡ ok ms
      → (first rest : List RuleMatch) × (match_rule lower input rule ≡ ok first)
        × (collect_matches lower input rules ≡ ok rest)
        × (ms ≡ first ++ rest)
  unfolding collect_matches
  collect_matches_cons rule rules {ms} h =
      let (first, found, h') = >>=-eq-ok (match_rule lower input rule) _ h in
      let (rest, later, same) = >>=-eq-ok (collect_matches lower input rules) _ h' in
      (first, rest, found, later, ground arith)

  collect_matches_sound :
      (rules : List RuntimeRule) {ms : List RuleMatch}
      → collect_matches lower input rules ≡ ok ms
      → All (λ m. Memᴰ m.rule rules × Applies m) ms
  unfolding collect_matches
  collect_matches_sound [] {ms} h = let e : ms ≡ [] = ground arith in rw e tt
  collect_matches_sound (rule ∷ rules) {ms} h =
      let (first, rest, found, later, e) = collect_matches_cons rule rules h in
      rw e (
        All-append _ first rest
          (All-mono first (λ m p. (Memᴰ.head p.0, p.1)) (match_rule_sound rule found))
          (All-mono rest (λ m p. (Memᴰ.tail p.0, p.1)) (collect_matches_sound rules later)))

  collect_matches_complete :
      (rules : List RuntimeRule) {ms : List RuleMatch} (m : RuleMatch)
      → collect_matches lower input rules ≡ ok ms
      → Memᴰ m.rule rules
      → Applies m
      → Mem m ms
  unfolding collect_matches
  collect_matches_complete [] m h i a = elim i [ ]
  collect_matches_complete (rule ∷ rules) {ms} m h i a =
      let (first, rest, found, later, e) = collect_matches_cons rule rules h in
      rw e (place first rest found (λ k. collect_matches_complete rules m later k a) i)
    where
      place :
          (first rest : List RuleMatch)
          → match_rule lower input rule ≡ ok first
          → (Memᴰ m.rule rules → Mem m rest)
          → Memᴰ m.rule (rule ∷ rules)
          → Mem m (first ++ rest)
      place first rest found later (Memᴰ.tail k) = mem-append_right first (later k)
      place first rest found later (Memᴰ.head same) =
          let here : first ≡ m ∷ [] = ground (arith, match_rule_complete m a) in
          rw here (mem-append_left rest (mem-cons_self {l = []}))

  match_rules_found :
      (rules : List RuntimeRule) {ms : List RuleMatch}
      → match_rules lower input rules ≡ ok ms
      → (found : List RuleMatch) × (collect_matches lower input rules ≡ ok found)
        × (ms ≡ sort match_before found)
  unfolding match_rules
  match_rules_found rules {ms} h =
      let (u, checked, h') = >>=-eq-ok (check_path lower (signature_path input.signature)) _ h in
      let (found, e, same) = >>=-eq-ok (collect_matches lower input rules) _ h' in
      (found, e, ground arith)

  -- Where matchRules succeeds, every match that it returns is of a listed rule, which is in scope
  -- and whose constraints hold, with the strength found for it.
  pub match_rules_sound :
      (rules : List RuntimeRule) {ms : List RuleMatch}
      → match_rules lower input rules ≡ ok ms
      → All (λ m. Memᴰ m.rule rules × Applies m) ms
  match_rules_sound rules {ms} h =
      let (found, e, e') = match_rules_found rules h in
      rw e' (All-sort match_before _ found (collect_matches_sound rules e))

  -- Where matchRules succeeds, every match of a listed rule that applies is among those that it
  -- returns.
  pub match_rules_complete :
      (rules : List RuntimeRule) {ms : List RuleMatch} (m : RuleMatch)
      → match_rules lower input rules ≡ ok ms
      → Memᴰ m.rule rules
      → Applies m
      → Mem m ms
  match_rules_complete rules {ms} m h i a =
      let (found, e, e') = match_rules_found rules h in
      rw e'
        ((Perm.mem_iff (sort-Perm match_before found)).1 (collect_matches_complete rules m e i a))

  -- The matches come strongest first, and by rule id where the strengths are equal.
  pub match_rules-IsSorted :
      (rules : List RuntimeRule) {ms : List RuleMatch}
      → match_rules lower input rules ≡ ok ms
      → IsSorted match_before ms
  match_rules-IsSorted rules {ms} h =
      let (found, e, e') = match_rules_found rules h in
      rw e' (sort-IsSorted match_before match_before-IsOrder found)

  -- A match is exact exactly when the signatures are of one kind and have one canonical form.
  pub match_strength-exact_iff :
      (rule : RuntimeRule) (mine theirs : CanonicalSignature)
      → canonical_signature lower input.signature ≡ ok mine
      → canonical_signature lower rule.signature ≡ ok theirs
      → (match_strength lower input rule ≡ ok (some exact))
        ↔ ((same_kind input.signature rule.signature ≡ true) × (mine ≡ theirs))
  unfolding match_strength
  match_strength-exact_iff rule mine theirs h k =
      rw (h, k)
        (
          λ e. ground (arith, signature_eq_iff mine theirs),
          λ e. ground (arith, signature_eq_iff mine theirs),
        )

scope_admits-repository :
    (s : Scope) (id : Option Text) (r : Text)
    → scope_admits s id ≡ true
    → s ≡ repository r
    → id ≡ some r
scope_admits-repository global id r h e = cc
scope_admits-repository (repository q) none r h e = cc
scope_admits-repository (repository q) (some i) r h e = let same : i ≡ q = ==_sound i q h in cc

-- No rule of a repository is matched for another repository, nor for an input of none.
pub match_rules-isolated :
    (lower : Text → Text) (input : RuntimeInput) (rules : List RuntimeRule) {ms : List RuleMatch}
    (m : RuleMatch) (r : Text)
    → match_rules lower input rules ≡ ok ms
    → Memᴰ m ms
    → m.rule.applicability.scope ≡ repository r
    → input.repository_id ≡ some r
unfolding scope_applies
match_rules-isolated lower input rules {ms} m r h i local =
    let (listed, applies) =
      All-mem (λ m. Memᴰ m.rule rules × Applies lower input m) ms i
        (match_rules_sound lower input rules h) in
    scope_admits-repository m.rule.applicability.scope input.repository_id r applies.in_scope local
