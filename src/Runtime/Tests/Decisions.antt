-- ===== src/Runtime/Tests/Decisions.antt =====
-- Decisions on the sample operation.
use agent_experience_agentic.Common.{codes, ◌≡◌, refl, [], ◌∷◌, true, false, some, ok, Memᴰ}
use agent_experience_agentic.Runtime.Contracts.{block, RuleMatch, RuntimeProfile}
use agent_experience_agentic.Runtime.CircuitBreaker.{closed}
use agent_experience_agentic.Runtime.Paths.{ascii_lower}
use agent_experience_agentic.Runtime.Matcher.{match_run}
use agent_experience_agentic.Runtime.Policy.{evaluate_rule}
use agent_experience_agentic.Runtime.Resilience.{healthy, deterministic, memory}
use agent_experience_agentic.Runtime.Gate.{
  RuntimeGateOptions, GateDecision, decide, evaluate, runtime_input_binding, runtime_input_form,
  strongest,
}
use agent_experience_agentic.Runtime.Gate.Laws.{
  Blocks, evaluate-block_sound, evaluate-block_complete,
}
use agent_experience_agentic.Runtime.Tests.Samples.{input, found, profile, index, digest}
use agent_experience_agentic.Runtime.Tests.Matches.{found-Applies}

abbrev gate : RuntimeGateOptions
gate = record {
  index = some index;
  profile = profile;
  status = record {
    health = healthy;
    profile_id = profile.id;
    hard_blocking = true;
    retrieval_mode = deterministic;
    fallback_source = memory;
    circuit_state = closed;
  };
}

abbrev decision : GateDecision
decision = decide input profile gate.status (found ∷ []) (codes "0")

evaluated : evaluate ascii_lower digest gate input ≡ ok decision
unfolding evaluate match_run runtime_input_binding runtime_input_form
evaluated = refl

found-Blocks : Blocks ascii_lower digest gate input found
found-Blocks = (Memᴰ.head refl, found-Applies, (refl, refl), refl, refl)

evaluate-block_sound_example :
    (profile.hard_blocking ≡ true) × ((m : RuleMatch) × Blocks ascii_lower digest gate input m)
unfolding decide strongest evaluate_rule
evaluate-block_sound_example =
    evaluate-block_sound ascii_lower digest gate input {d = decision} refl evaluated refl

evaluate-block_complete_example : decision.outcome ≡ block
evaluate-block_complete_example =
    evaluate-block_complete ascii_lower digest gate input {d = decision} found refl evaluated refl
      found-Blocks

abbrev lenient : RuntimeProfile
lenient = record profile { hard_blocking = false }
