-- ===== src/Runtime/Policy/Laws.antt =====
-- When a rule blocks, when it warns, and how profiles compare.
use agent_experience_agentic.Common.{ℕ, ◌≤◌, ◌≡◌, refl, ◌↔◌, ◌≢◌, ◌⊎◌, true, false, arith}
use agent_experience_agentic.Domain.Types.{confirmed, verified}
use agent_experience_agentic.Runtime.Contracts.{
  DecisionOutcome, allow, warn, block, exact, conflict, RuleMatch, RuntimeProfile,
  RuntimeExplanationCode,
}
use agent_experience_agentic.Runtime.Policy.{base_policy, apply_profile, evaluate_rule}

-- An authoritative rule that forbids the operation.
abbrev pub Opposes : RuleMatch → Type 0
Opposes m = (m.rule.authoritative ≡ true) × (m.rule.effect ≡ conflict)

evaluate_rule-outcome :
    (m : RuleMatch) (p : RuntimeProfile)
    → (evaluate_rule m p).outcome ≡ (apply_profile (base_policy m).0 (base_policy m).1 p).0
unfolding evaluate_rule
evaluate_rule-outcome m p = refl

-- A rule blocks exactly when it is a verified authoritative conflict, matched exactly, under a
-- profile with hard blocking.
pub evaluate_rule-block_iff :
    (m : RuleMatch) (p : RuntimeProfile)
    → ((evaluate_rule m p).outcome ≡ block)
      ↔ (Opposes m × (m.rule.state ≡ verified) × (m.strength ≡ exact) × (p.hard_blocking ≡ true))
unfolding evaluate_rule
evaluate_rule-block_iff m p = (λ h. ground arith, λ h. ground arith)

-- A rule warns exactly when warnings are enabled and it is an authoritative conflict that is
-- confirmed, or verified and not blocking: matched by metadata or tags, or under a profile with
-- no hard blocking.
pub evaluate_rule-warn_iff :
    (m : RuleMatch) (p : RuntimeProfile)
    → ((evaluate_rule m p).outcome ≡ warn) ↔ (
        (p.warnings_enabled ≡ true)
        × Opposes m
        × ((m.rule.state ≡ confirmed)
            ⊎ ((m.rule.state ≡ verified) × ((m.strength ≢ exact) ⊎ (p.hard_blocking ≡ false)))))
unfolding evaluate_rule
evaluate_rule-warn_iff m p = (λ h. ground arith, λ h. ground arith)

abbrev pub rank : DecisionOutcome → ℕ
rank allow = 0
rank warn = 1
rank block = 2

apply_profile_mono :
    (p q : RuntimeProfile) (o : DecisionOutcome) (c : RuntimeExplanationCode)
    → (p.hard_blocking ≡ true → q.hard_blocking ≡ true)
    → (p.warnings_enabled ≡ true → q.warnings_enabled ≡ true)
    → rank (apply_profile o c p).0 ≤ rank (apply_profile o c q).0
unfolding apply_profile
apply_profile_mono p q o c h w = ground arith

-- A profile that enforces at least as much decides at least as strictly.
pub evaluate_rule_mono :
    (m : RuleMatch) (p q : RuntimeProfile)
    → (p.hard_blocking ≡ true → q.hard_blocking ≡ true)
    → (p.warnings_enabled ≡ true → q.warnings_enabled ≡ true)
    → rank (evaluate_rule m p).outcome ≤ rank (evaluate_rule m q).outcome
evaluate_rule_mono m p q h w =
    rw (evaluate_rule-outcome m p, evaluate_rule-outcome m q)
      (apply_profile_mono p q (base_policy m).0 (base_policy m).1 h w)
