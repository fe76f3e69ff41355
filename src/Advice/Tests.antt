-- ===== src/Advice/Tests.antt =====
-- Two entries for an operation, one of them disputed.
use agent_experience_agentic.Common.{
  ℕ, Text, codes, text_lt, List, [], ◌∷◌, Bool, false, none, some, length, ◌==◌, ◌≡◌, ◌≢◌, refl,
  arith, sort,
}
use agent_experience_agentic.Domain.Types.{convention}
use agent_experience_agentic.Advice.Selection.{
  VerifiedAdviceEntry, AdviceContext, whole_repository, clear, in_dispute, verified, ready,
  unavailable, is_eligible, for_operation, turn_of, select_from, select_local_advice,
}
use agent_experience_agentic.Advice.Selection.Laws.{IsSelection, select_local_advice-IsSelection}
use agent_experience_agentic.Advice.Selection.Timely.{select_local_advice-timely}

abbrev context : AdviceContext
context = record {
  repository_id = codes "r1";
  subproject_path = none;
  operation_signature = codes "op";
  context_revision = codes "c1";
  conditions = [];
}

abbrev entry : VerifiedAdviceEntry
entry = record {
  candidate_id = codes "a";
  revision = codes "1";
  repository_id = codes "r1";
  kind = convention;
  statement = codes "use pnpm";
  scope = whole_repository;
  conditions = none;
  operation_signature = none;
  context_revision = some (codes "c1");
  evidence_refs = codes "e1" ∷ [];
  contradiction_state = clear;
  state = verified;
}

abbrev contested : VerifiedAdviceEntry
contested = record entry { candidate_id = codes "b"; contradiction_state = in_dispute }

abbrev plain : Text → Bool
plain t = false

abbrev size : List VerifiedAdviceEntry → ℕ
size es = length es

abbrev clock : ℕ → ℕ
clock k = 5

selected :
    select_local_advice text_lt plain size 10 clock context (contested ∷ entry ∷ entry ∷ [])
    ≡ ready (entry ∷ [])
unfolding select_local_advice select_from turn_of is_eligible for_operation sort text_lt ◌==◌
selected = refl

select_local_advice-IsSelection_example :
    IsSelection text_lt plain size context (contested ∷ entry ∷ entry ∷ []) (entry ∷ [])
select_local_advice-IsSelection_example =
    select_local_advice-IsSelection text_lt plain size context (contested ∷ entry ∷ entry ∷ []) 10
      clock {out = entry ∷ []} selected

select_local_advice-timely_example :
    select_local_advice text_lt plain size 10 clock context (contested ∷ entry ∷ []) ≢ unavailable
select_local_advice-timely_example =
    select_local_advice-timely text_lt plain size context 10 clock (λ k. omega arith)
      (contested ∷ entry ∷ [])
