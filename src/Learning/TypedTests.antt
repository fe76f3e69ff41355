-- ===== src/Learning/TypedTests.antt =====
-- A changed decision with its outcome, and a closure without a check.
use agent_experience_agentic.Common.{
  Text, codes, text_lt, ◌==◌, trim, List, [], ◌∷◌, Bool, false, none, some, ok, sort, All, ◌≡◌,
  refl,
}
use agent_experience_agentic.Runtime.Override.{is_alphanumeric}
use agent_experience_agentic.Learning.Episodes.{
  EpisodeEvidence, tool_request, task_transition, closed, observed,
}
use agent_experience_agentic.Learning.Typed.{DetectorInput, Derived}
use agent_experience_agentic.Learning.Typed.Gaps.{derive_all, typed_episodes, typed_run}
use agent_experience_agentic.Learning.Typed.Support.{event_ids_of}
use agent_experience_agentic.Learning.Typed.Grounded.{IsIdOf, IsChecked, typed_episodes-IsChecked}

abbrev first_try : EpisodeEvidence
first_try = record {
  id = codes "a";
  kind = tool_request;
  state = observed;
  origin = none;
  decision_key = some (codes "k");
  scope_key = some (codes "s");
  reason_class = none;
  detector_version = none;
  evidence_ids = codes "x" ∷ [];
}

abbrev second_try : EpisodeEvidence
second_try = record first_try { id = codes "b"; evidence_ids = codes "a" ∷ [] }

abbrev closure : EpisodeEvidence
closure = record first_try { id = codes "c"; kind = task_transition; state = closed }

abbrev input : DetectorInput
input = record {
  repository_id = codes "r1";
  session_id = codes "s1";
  episode_evidence = first_try ∷ second_try ∷ closure ∷ [];
  current_typed_evidence_ids = none;
}

abbrev plain : Text → Bool
plain t = false

abbrev stable : List Text → Text
stable parts = codes "h"

abbrev derived : List Derived
derived = derive_all text_lt stable input (first_try ∷ second_try ∷ closure ∷ [])

detected : typed_episodes text_lt stable plain input ≡ ok derived
unfolding typed_run sort text_lt ◌==◌ is_alphanumeric trim
detected = refl

typed_episodes-IsChecked_example :
    All (λ d. All (IsIdOf (first_try ∷ second_try ∷ closure ∷ [])) (event_ids_of d)) derived
    × All IsChecked derived
typed_episodes-IsChecked_example =
    typed_episodes-IsChecked text_lt stable plain input {derived = derived} detected
