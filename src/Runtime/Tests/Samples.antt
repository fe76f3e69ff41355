-- ===== src/Runtime/Tests/Samples.antt =====
-- A rule, an operation that it forbids, a profile and a runtime, for the tests.
use agent_experience_agentic.Common.{Text, codes, [], ◌∷◌, true, false, none, some}
use agent_experience_agentic.Domain.Types.{KnowledgeState}
use agent_experience_agentic.Runtime.Contracts.{
  normal, allow, warn, block, exact, action, RuntimeSignature, RuntimeInput, repository, conflict,
  RuntimeRule, RuleMatch, RuntimeProfile,
}
use agent_experience_agentic.Runtime.CircuitBreaker.{CircuitBreaker, closed, opened}
use agent_experience_agentic.Runtime.Resilience.{ResilientRuntime}
use agent_experience_agentic.Runtime.Gate.{RuleIndex, InputForm}

abbrev pub install : RuntimeSignature
install = action (record {
  tool = codes "npm";
  action = codes "install";
  arguments = none;
  path = some (codes "/repo/./a");
})

abbrev pub input : RuntimeInput
input = record {
  repository_id = some (codes "r1");
  operation_class = normal;
  tags = none;
  signature = install;
}

abbrev pub rule : RuntimeRule
rule = record {
  id = codes "rule-1";
  state = KnowledgeState.verified;
  authoritative = true;
  effect = conflict;
  signature = action (record {
    tool = codes " NPM";
    action = codes "install";
    arguments = none;
    path = some (codes "/repo/a");
  });
  applicability = record { scope = repository (codes "r1"); tool = none; path = none; tags = none };
  reference = record { knowledge_id = codes "k1"; evidence_ids = codes "e1" ∷ []; source = none };
}

abbrev pub found : RuleMatch
found = record { rule = rule; strength = exact; operation_class = normal }

abbrev pub profile : RuntimeProfile
profile = record {
  id = codes "normal";
  hard_blocking = true;
  warnings_enabled = true;
  capture_enabled = true;
  retrieval_enabled = true;
  degraded_outcomes = record { normal = allow; caution = warn; protected = block };
}

abbrev pub breaker : CircuitBreaker
breaker = record {
  failure_threshold = 3;
  reset_after_ms = 30000;
  state = closed;
  failures = 0;
  opened_at = 0;
}

abbrev pub tripped : CircuitBreaker
tripped = record breaker { state = opened; failures = 3; opened_at = 1000 }

abbrev pub index : RuleIndex
index = record { repository_id = codes "r1"; rules = rule ∷ [] }

abbrev pub runtime : ResilientRuntime RuleIndex
runtime = record {
  profile = profile;
  breaker = breaker;
  current = none;
  degraded_diagnostic_emitted = false;
}

abbrev pub digest : InputForm → Text
digest form = codes "0"
