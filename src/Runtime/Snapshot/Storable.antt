-- ===== src/Runtime/Snapshot/Storable.antt =====
-- What a stored rule is, and what the checks on a list of rules say.
use mathlib.Core.Path.{subst}
use agent_experience_agentic.Common.{
  Text, ◌==◌, List, [], ◌∷◌, Bool, true, false, not, ◌&&◌, ok, any, ◌≡◌, refl, sym, ap, ◌∙◌, ◌⊎◌,
  inl, inr, arith, >>=-eq-ok, guard-eq-ok, ok-injective, All, IsOrder, IsDistinct, fresh-cons,
  cons-fresh, text_lt_asymm, text_ge_trans,
}
use agent_experience_agentic.Runtime.Contracts.{RuleEffect, conflict, context, RuntimeRule}
use agent_experience_agentic.Runtime.Snapshot.{
  is_active, is_context_only, rule_within_limits, parse_rule, parse_rules, rule_before,
  parse_signature, parse_applicability, parse_reference, assert_string,
}
use agent_experience_agentic.Runtime.Snapshot.Parse.{check_stored, is_context, is_local, rule_ids}

rule_before_asymm : (a b : RuntimeRule) → rule_before a b ≡ true → rule_before b a ≡ false
unfolding rule_before
rule_before_asymm a b h = text_lt_asymm a.id b.id h

rule_before_trans :
    (a b c : RuntimeRule)
    → rule_before b a ≡ false
    → rule_before c b ≡ false
    → rule_before c a ≡ false
unfolding rule_before
rule_before_trans a b c h k = text_ge_trans c.id b.id a.id k h

pub rule_before-IsOrder : IsOrder rule_before
rule_before-IsOrder = record { asymm = rule_before_asymm; trans = rule_before_trans }

pub of_not-true : (b : Bool) → not b ≡ true → b ≡ false
of_not-true b h = ground arith

-- The ids of the rules are pairwise different, and new to the ids seen.
pub check_stored-IsDistinct :
    (id : Text) (seen : List Text) (rules : List RuntimeRule)
    → check_stored id seen rules ≡ ok tt
    → All (λ x. any (◌==◌ x) seen ≡ false) (rule_ids rules) × IsDistinct (rule_ids rules)
unfolding check_stored
check_stored-IsDistinct id seen [] h = (tt, tt)
check_stored-IsDistinct id seen (r ∷ rs) h =
    let (_, h1) = guard-eq-ok (is_active r) _ _ h in
    let (_, h2) = guard-eq-ok (not (is_context_only r && not (is_context r.effect))) _ _ h1 in
    let (_, h3) = guard-eq-ok (is_local id r.applicability.scope) _ _ h2 in
    let (new, h4) = guard-eq-ok (not (any (◌==◌ r.id) seen)) _ _ h3 in
    let (later, rest) = check_stored-IsDistinct id (r.id ∷ seen) rs h4 in
    let (fresh, apart) = fresh-cons r.id seen (rule_ids rs) later in
    ((of_not-true (any (◌==◌ r.id) seen) new, fresh), (apart, rest))

module _ (lower : Text → Text) (id : Text) where
  -- A rule that a snapshot of the repository may hold.
  pub record IsStorable (r : RuntimeRule) : Type 0 where
    pub parsed : parse_rule lower r ≡ ok r
    pub active : is_active r ≡ true
    pub contextual : (is_context_only r ≡ false) ⊎ (r.effect ≡ context)
    pub here : is_local id r.applicability.scope ≡ true
    pub limited : rule_within_limits r ≡ true

  parse_rule-eq : (r : RuntimeRule) {r' : RuntimeRule} → parse_rule lower r ≡ ok r' → r ≡ r'
  unfolding parse_rule
  parse_rule-eq r {r'} h =
      let (_, _, h1) = >>=-eq-ok (assert_string r.id) _ h in
      let (_, _, h2) = >>=-eq-ok (parse_signature lower r.signature) _ h1 in
      let (_, _, h3) = >>=-eq-ok (parse_applicability lower r.applicability) _ h2 in
      let (_, _, h4) = >>=-eq-ok (parse_reference lower r.reference) _ h3 in ok-injective r r' h4

  pub parse_rules-ok :
      (rs : List RuntimeRule) {rs' : List RuntimeRule}
      → parse_rules lower rs ≡ ok rs'
      → (rs ≡ rs') × All (λ r. parse_rule lower r ≡ ok r) rs
  unfolding parse_rules
  parse_rules-ok [] {rs'} h = (ok-injective [] rs' h, tt)
  parse_rules-ok (r ∷ rs) {rs'} h =
      let (first, one, h1) = >>=-eq-ok (parse_rule lower r) _ h in
      let (rest, more, done) = >>=-eq-ok (parse_rules lower rs) _ h1 in
      let (same, each) = parse_rules-ok rs more in
      let e = parse_rule-eq r one in
      (
        ap (λ x. x ∷ rs) e ∙ ap (◌∷◌ first) same ∙ ok-injective (first ∷ rest) rs' done,
        (subst (λ x. parse_rule lower r ≡ ok x) (sym e) one, each),
      )

  pub parse_rules-All :
      (rs : List RuntimeRule)
      → All (λ r. parse_rule lower r ≡ ok r) rs
      → parse_rules lower rs ≡ ok rs
  unfolding parse_rules
  parse_rules-All [] h = refl
  parse_rules-All (r ∷ rs) h = rw (h.0, parse_rules-All rs h.1) refl

  -- The checks of the loop, of each rule.
  pub check_stored-All :
      (seen : List Text) (rules : List RuntimeRule)
      → check_stored id seen rules ≡ ok tt
      → All
          (λ r.
            (is_active r ≡ true)
            × ((is_context_only r ≡ false) ⊎ (r.effect ≡ context))
            × (is_local id r.applicability.scope ≡ true))
          rules
  unfolding check_stored
  check_stored-All seen [] h = tt
  check_stored-All seen (r ∷ rs) h =
      let (a, h1) = guard-eq-ok (is_active r) _ _ h in
      let (b, h2) = guard-eq-ok (not (is_context_only r && not (is_context r.effect))) _ _ h1 in
      let (c, h3) = guard-eq-ok (is_local id r.applicability.scope) _ _ h2 in
      let (_, h4) = guard-eq-ok (not (any (◌==◌ r.id) seen)) _ _ h3 in
      ((a, stored (is_context_only r) r.effect b, c), check_stored-All (r.id ∷ seen) rs h4)
    where
      stored :
          (only : Bool) (e : RuleEffect)
          → not (only && not (is_context e)) ≡ true
          → (only ≡ false) ⊎ (e ≡ context)
      stored true context k = inr refl
      stored true conflict k = cc
      stored false e k = inl refl

  -- Storable rules pass the loop, if their ids are new and different.
  pub check_stored-ok :
      (seen : List Text) (rules : List RuntimeRule)
      → All IsStorable rules
      → All (λ x. any (◌==◌ x) seen ≡ false) (rule_ids rules)
      → IsDistinct (rule_ids rules)
      → check_stored id seen rules ≡ ok tt
  unfolding check_stored
  check_stored-ok seen [] s f d = refl
  check_stored-ok seen (r ∷ rs) s f d =
      let kept : not (is_context_only r && not (is_context r.effect)) ≡ true =
        stored (is_context_only r) r.effect s.0.contextual in
      let later =
        check_stored-ok (r.id ∷ seen) rs s.1 (cons-fresh r.id seen (rule_ids rs) f.1 d.0) d.1 in
      rw (s.0.active, kept, s.0.here, f.0) later
    where
      stored :
          (only : Bool) (e : RuleEffect)
          → (only ≡ false) ⊎ (e ≡ context)
          → not (only && not (is_context e)) ≡ true
      stored only e (inl k) = rw k refl
      stored true e (inr k) = rw k refl
      stored false e (inr k) = refl
