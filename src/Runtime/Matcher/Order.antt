-- ===== src/Runtime/Matcher/Order.antt =====
-- The comparison of `matches.sort` is an order: by strength, then by rule id.
use agent_experience_agentic.Common.{◌≡◌, true, false, arith, IsOrder, text_lt_asymm, text_ge_trans}
use agent_experience_agentic.Runtime.Contracts.{RuleMatch}
use agent_experience_agentic.Runtime.Matcher.{match_before}

match_before_asymm : (a b : RuleMatch) → match_before a b ≡ true → match_before b a ≡ false
unfolding match_before
match_before_asymm a b h = ground (arith, text_lt_asymm a.rule.id b.rule.id)

match_before_trans :
    (a b c : RuleMatch)
    → match_before b a ≡ false
    → match_before c b ≡ false
    → match_before c a ≡ false
unfolding match_before
match_before_trans a b c h k = ground (arith, text_ge_trans c.rule.id b.rule.id a.rule.id)

pub match_before-IsOrder : IsOrder match_before
match_before-IsOrder = record { asymm = match_before_asymm; trans = match_before_trans }
