-- ===== src/Runtime/Override/Narrow.antt =====
-- An override of one rule leaves the others in force.
use mathlib.Core.Path.{subst}
use agent_experience_agentic.Common.{
  Text, ==_iff, List, [], ◌∷◌, Bool, true, Option, none, some, ok, ◌≡◌, refl, ◌≢◌, ◌≤◌, arith, Memᴰ,
  All, All-mem, filter, filter-mem, ap,
}
use agent_experience_agentic.Runtime.Matcher.{CanonicalSignature}
use agent_experience_agentic.Runtime.Gate.{
  InputForm, GateExplanation, outcome_rank, strongest, explanation_outcomes,
}
use agent_experience_agentic.Runtime.Gate.Strongest.{strongest_max}
use agent_experience_agentic.Runtime.Override.{rule_scope}
use agent_experience_agentic.Runtime.Override.Apply.{
  OverrideApplication, ApplyRuntimeOverrideInput, apply_runtime_override, is_kept,
  overridden_outcome, overridden_decision,
}
use agent_experience_agentic.Runtime.Override.Laws.{apply_runtime_override-accepted, OnlyOwn}

is_kept-other :
    (id : Text) (own : Option Text) (ids : List Text)
    → All (λ x. x ≡ id) ids
    → own ≢ some id
    → is_kept ids own ≡ true
unfolding is_kept
is_kept-other id none ids h n = refl
is_kept-other id (some x) [] h n = refl
is_kept-other id (some x) (y ∷ ys) h n =
    let later = is_kept-other id (some x) ys h.1 n in
    let same = ==_iff x y in let wanted = h.0 in ground arith

outcomes-mem :
    (e : GateExplanation) (es : List GateExplanation)
    → Memᴰ e es
    → Memᴰ e.outcome (explanation_outcomes es)
outcomes-mem e [] m = elim m [ ]
outcomes-mem e (x ∷ xs) (Memᴰ.head same) = Memᴰ.head (ap (λ z. z.outcome) same)
outcomes-mem e (x ∷ xs) (Memᴰ.tail m) = Memᴰ.tail (outcomes-mem e xs m)

overridden_outcome-ge :
    (id : Text) (es : List GateExplanation) (ids : List Text) (e : GateExplanation)
    → Memᴰ e es
    → is_kept ids e.rule_id ≡ true
    → outcome_rank e.outcome ≤ outcome_rank (overridden_outcome (rule_scope id) es ids)
unfolding overridden_outcome
overridden_outcome-ge id es ids e m kept =
    let remaining = filter (λ x. is_kept ids x.rule_id) es in
    let there = outcomes-mem e remaining (filter-mem (λ x. is_kept ids x.rule_id) es m kept) in
    All-mem (λ o. outcome_rank o ≤ outcome_rank (strongest (explanation_outcomes remaining)))
      (explanation_outcomes remaining) there (strongest_max (explanation_outcomes remaining)).0

module _ (lower : Text → Text) (sign : CanonicalSignature → Text) (digest : InputForm → Text)
    (is_iso safe : Text → Bool) where
  -- After an accepted override of one rule the outcome is at least as strong as every explanation
  -- that is not of that rule.
  pub apply_runtime_override-narrow :
      (i : ApplyRuntimeOverrideInput) {r : OverrideApplication} (id : Text) (e : GateExplanation)
      → apply_runtime_override lower sign digest is_iso safe i ≡ ok r
      → r.accepted ≡ true
      → i.override.scope ≡ rule_scope id
      → Memᴰ e i.decision.explanations
      → e.rule_id ≢ some id
      → outcome_rank e.outcome ≤ outcome_rank r.decision.outcome
  unfolding overridden_decision
  apply_runtime_override-narrow i {r} id e h k scoped m other =
      let granted = apply_runtime_override-accepted lower sign digest is_iso safe i h k in
      let own =
        subst (λ s. OnlyOwn lower sign digest is_iso safe s granted.ids) scoped granted.own in
      let kept = is_kept-other id e.rule_id granted.ids own other in
      let ge = overridden_outcome-ge id i.decision.explanations granted.ids e m kept in
      rw (granted.overrides, scoped) ge
