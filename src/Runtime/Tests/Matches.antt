-- ===== src/Runtime/Tests/Matches.antt =====
-- The sample rule, matched against the operation that it forbids.
use agent_experience_agentic.Common.{codes, ◌≡◌, refl, [], ◌∷◌, some, ok, All, Memᴰ}
use mathlib.Core.List.{Mem}
use agent_experience_agentic.Runtime.Paths.{ascii_lower, posix_absolute}
use agent_experience_agentic.Runtime.Matcher.{
  match_rules, match_run, CanonicalSignature, action_form,
}
use agent_experience_agentic.Runtime.Matcher.Laws.{Applies, match_rules_sound, match_rules_complete}
use agent_experience_agentic.Runtime.Tests.Samples.{input, rule, found}

one_match : match_rules ascii_lower input (rule ∷ []) ≡ ok (found ∷ [])
unfolding match_run
one_match = refl

pub found-Applies : Applies ascii_lower input found
unfolding match_run
found-Applies = record { in_scope = refl; declared = refl; strong = refl; class = refl }

match_rules_sound_example :
    All (λ m. Memᴰ m.rule (rule ∷ []) × Applies ascii_lower input m) (found ∷ [])
match_rules_sound_example = match_rules_sound ascii_lower input (rule ∷ []) one_match

match_rules_complete_example : Mem found (found ∷ [])
match_rules_complete_example =
    match_rules_complete ascii_lower input (rule ∷ []) found one_match (Memᴰ.head refl)
      found-Applies

abbrev form : CanonicalSignature
form =
    action_form (codes "npm") (codes "install") []
      (some (record { flavor = posix_absolute; normalized = codes "/repo/a" }))
