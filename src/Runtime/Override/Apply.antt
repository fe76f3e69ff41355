-- ===== src/Runtime/Override/Apply.antt =====
-- `applyRuntimeOverride`: what an override does to a decision.

use agent_experience_agentic.Common.{
  Text, ◌==◌, List, [], ◌∷◌, Bool, true, false, not, if◌then◌else◌, Option, none, some, Result, ok,
  ◌>>=◌, ◌>>◌, any, filter, text_lt,
}
use agent_experience_agentic.Runtime.Contracts.{DecisionOutcome, allow, RuntimeInput}
use agent_experience_agentic.Runtime.Matcher.{CanonicalSignature}
use agent_experience_agentic.Runtime.Gate.{
  GateExplanation, OverrideKind, GateDecision, InputForm, runtime_input_binding, strongest,
  explanation_outcomes,
}
use agent_experience_agentic.Runtime.Override.{
  OverrideScope, rule_scope, action_scope, task_session_scope, RuntimeOverride, OverrideError,
  as_override_error, hash_signature, assert_timestamp,
}
use agent_experience_agentic.Runtime.Override.Grant.{parse_runtime_override}

pub data OverrideRejection : Type 0 where
  expired not_yet_valid scope_mismatch decision_not_enforcing input_mismatch : OverrideRejection

pub record OverrideApplication : Type 0 where
  pub accepted : Bool
  pub decision : GateDecision
  pub rejection : Option OverrideRejection

pub record ApplyRuntimeOverrideInput : Type 0 where
  pub decision : GateDecision
  pub input : RuntimeInput
  pub override : RuntimeOverride
  pub now : Text
  pub task_session_id : Option Text

pub record ScopeMatch : Type 0 where
  pub matches : Bool
  pub overridden_rule_ids : List Text

abbrev is_allow : DecisionOutcome → Bool
is_allow allow = true
is_allow _ = false

-- `.filter(({ outcome, ruleId }) => …).map(({ ruleId }) => ruleId!)`.
unfoldable pub enforcing_rule_ids : List GateExplanation → List Text
enforcing_rule_ids [] = []
enforcing_rule_ids (e ∷ es) = elim e.rule_id [
  | none ↦ enforcing_rule_ids es
  | some id ↦
      let rest = enforcing_rule_ids es in if not (is_allow e.outcome) then id ∷ rest else rest
]

abbrev pub scope_kind : OverrideScope → OverrideKind
scope_kind (rule_scope _) = OverrideKind.rule
scope_kind (action_scope _) = OverrideKind.action
scope_kind (task_session_scope _) = OverrideKind.task_session

-- `ruleId === undefined || !overriddenRuleIds.includes(ruleId)`.
unfoldable pub is_kept : List Text → Option Text → Bool
is_kept overridden none = true
is_kept overridden (some id) = not (any (◌==◌ id) overridden)

unfoldable pub overridden_outcome :
    OverrideScope → List GateExplanation → List Text → DecisionOutcome
overridden_outcome (rule_scope _) explanations overridden =
    strongest (explanation_outcomes (filter (λ e. is_kept overridden e.rule_id) explanations))
overridden_outcome (action_scope _) explanations overridden = allow
overridden_outcome (task_session_scope _) explanations overridden = allow

abbrev pub rejected : GateDecision → OverrideRejection → OverrideApplication
rejected decision rejection = record {
  accepted = false;
  decision = decision;
  rejection = some rejection;
}

abbrev pub has_expired : Text → Option Text → Bool
has_expired now none = false
has_expired now (some expiry) = not (text_lt now expiry)

abbrev pub is_session : Text → Option Text → Bool
is_session id none = false
is_session id (some current) = id == current

-- The decision that an override with this scope and these rules makes of another.
unfoldable pub overridden_decision : GateDecision → RuntimeOverride → List Text → GateDecision
overridden_decision decision override ids = record decision {
  outcome = overridden_outcome override.scope decision.explanations ids;
  override = some (record {
    override_id = override.id;
    scope = scope_kind override.scope;
    overridden_rule_ids = ids;
  });
}

module _ (lower : Text → Text) (sign : CanonicalSignature → Text) where
  unfoldable pub scope_matches :
      OverrideScope → ApplyRuntimeOverrideInput → Result OverrideError ScopeMatch
  scope_matches (action_scope hash) input = do
    current ← hash_signature lower sign input.input.signature
    let ids = enforcing_rule_ids input.decision.explanations
    ok (record { matches = hash == current; overridden_rule_ids = ids })
  scope_matches (task_session_scope id) input = ok (record {
    matches = is_session id input.task_session_id;
    overridden_rule_ids = enforcing_rule_ids input.decision.explanations;
  })
  scope_matches (rule_scope id) input =
      let ids = enforcing_rule_ids input.decision.explanations in
      ok (record {
        matches = any (λ r. r.rule_id == id) input.decision.references;
        overridden_rule_ids = if any (◌==◌ id) ids then id ∷ [] else [];
      })

  module _ (digest : InputForm → Text) (is_iso safe : Text → Bool) where
    -- The end of the function, once the scope has been compared.
    unfoldable pub settle : GateDecision → RuntimeOverride → ScopeMatch → OverrideApplication
    settle decision override found =
        if not found.matches
        then rejected decision scope_mismatch
        else if is_none_listed found.overridden_rule_ids
        then rejected decision decision_not_enforcing
        else record {
          accepted = true;
          decision = overridden_decision decision override found.overridden_rule_ids;
          rejection = none;
        }
      where
        is_none_listed : List Text → Bool
        is_none_listed [] = true
        is_none_listed (_ ∷ _) = false

    unfoldable pub apply_runtime_override :
        ApplyRuntimeOverrideInput → Result OverrideError OverrideApplication
    apply_runtime_override input = do
      assert_timestamp is_iso safe input.now
      override ← parse_runtime_override is_iso safe input.override
      binding ← as_override_error (runtime_input_binding lower digest input.input)
      if not (binding == input.decision.input_binding)
          then ok (rejected input.decision input_mismatch)
          else if text_lt input.now override.created_at
          then ok (rejected input.decision not_yet_valid)
          else if has_expired input.now override.expires_at
          then ok (rejected input.decision expired)
          else do
            found ← scope_matches override.scope input
            ok (settle input.decision override found)
