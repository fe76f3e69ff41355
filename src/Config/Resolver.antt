-- ===== src/Config/Resolver.antt =====
-- src/config/profile-resolver.ts: `resolveProfileTarget`. The registry has been validated: its
-- profiles are a list by id, and `lineage` is `hasLearningLineage` of it; `built_in` are the ids of
-- the built-in profiles. Both come from config/runtime-profile.ts.
use agent_experience_agentic.Common.{
  Text, codes, ◌==◌, List, [], ◌∷◌, ◌++◌, Bool, not, ◌&&◌, Option, none, some, Result, ok, err,
  ◌>>=◌, ◌>>◌, guard, any,
}
use agent_experience_agentic.Runtime.Contracts.{DegradedOutcomes, RuntimeProfile}
use agent_experience_agentic.Runtime.Paths.{normalize_runtime_path}
use agent_experience_agentic.Config.Settings.{
  ProfileSource, session_override, local_exact, local_wildcard, repository_shared, global_exact,
  global_wildcard, global_default, built_in_default, RuntimeProfileSelection, by_id, remote, path,
  ProfileTargetSelector, ProfileTargetFacts, ProfileResolutionError, unknown_built_in,
  no_value_resolved, learning_without_capture, as_resolution_error, PartialProfile, SelectorTrace,
  Candidate, Profiles, resolve_setting,
}
use agent_experience_agentic.Config.Selectors.{
  MatchedSelector, select_exact, select_wildcard, normalize_git_remote_url, match_selectors,
}

pub record ProfileResolutionInput : Type 0 where
  pub facts : ProfileTargetFacts
  pub session_override : Option RuntimeProfileSelection
  pub local_selectors : List ProfileTargetSelector
  pub repository_shared : Option RuntimeProfileSelection
  pub global_selectors : List ProfileTargetSelector
  pub global_default : Option RuntimeProfileSelection
  pub built_in_default : Option Text

pub record ProfileTraceEntry : Type 0 where
  pub source : ProfileSource
  pub profile_id : Option Text
  pub selector : Option SelectorTrace

-- A value with the entry of the trace that it has.
pub record Traced {ℓ} (A : Type ℓ) : Type ℓ where
  pub value : A
  pub entry : ProfileTraceEntry

-- The fields of the profile, each with its trace.
pub record ResolvedProfileTarget : Type 0 where
  pub id : Traced Text
  pub hard_blocking : Traced Bool
  pub warnings_enabled : Traced Bool
  pub capture_enabled : Traced Bool
  pub retrieval_enabled : Traced Bool
  pub degraded_outcomes : Traced DegradedOutcomes

abbrev pub resolved_profile : ResolvedProfileTarget → RuntimeProfile
resolved_profile r = record {
  id = r.id.value;
  hard_blocking = r.hard_blocking.value;
  warnings_enabled = r.warnings_enabled.value;
  capture_enabled = r.capture_enabled.value;
  retrieval_enabled = r.retrieval_enabled.value;
  degraded_outcomes = r.degraded_outcomes.value;
}

unfoldable pub trace_entry : Candidate → ProfileTraceEntry
trace_entry c = record { source = c.source; profile_id = c.profile_id; selector = c.selector }

abbrev pub shown_pattern : MatchedSelector → Text
shown_pattern m = elim m.selector.target [
  | remote ↦ m.normalized_pattern
  | path ↦ m.selector.pattern
]

-- What the call pushes on the candidates.
unfoldable pub setting_candidate :
    ProfileSource
    → Option RuntimeProfileSelection
    → Profiles
    → Result ProfileResolutionError (List Candidate)
setting_candidate source none registry = ok []
setting_candidate source (some selection) registry = do
  resolved ← resolve_setting selection registry
  ok (
      record {
        source = source;
        values = resolved.values;
        profile_id = resolved.profile_id;
        selector = none;
      }
      ∷ [])

unfoldable pub selector_candidate :
    ProfileSource
    → Option MatchedSelector
    → Profiles
    → Result ProfileResolutionError (List Candidate)
selector_candidate source none registry = ok []
selector_candidate source (some m) registry = do
  resolved ← resolve_setting m.selector.profile registry
  ok (
      record {
        source = source;
        values = resolved.values;
        profile_id = resolved.profile_id;
        selector = some (record {
          target = m.selector.target;
          pattern = shown_pattern m;
          normalized_pattern = m.normalized_pattern;
        });
      }
      ∷ [])

abbrev pub taken_or {ℓ} :
    {A : Type ℓ} → Candidate → Option A → Option (Traced A) → Option (Traced A)
taken_or c none later = later
taken_or c (some value) later = some (record { value = value; entry = trace_entry c })

-- The first candidate that has the field.
unfoldable pub first_value {ℓ} :
    {A : Type ℓ} → (PartialProfile → Option A) → List Candidate → Option (Traced A)
first_value field [] = none
first_value field (c ∷ cs) = taken_or c (field c.values) (first_value field cs)

abbrev pub resolved_field {ℓ} :
    {A : Type ℓ} → Option (Traced A) → Result ProfileResolutionError (Traced A)
resolved_field none = err no_value_resolved
resolved_field (some t) = ok t

-- The loop over the fields.
unfoldable pub resolve_fields : List Candidate → Result ProfileResolutionError ResolvedProfileTarget
resolve_fields cs = do
  id ← resolved_field (first_value (λ v. v.id) cs)
  hard_blocking ← resolved_field (first_value (λ v. v.hard_blocking) cs)
  warnings_enabled ← resolved_field (first_value (λ v. v.warnings_enabled) cs)
  capture_enabled ← resolved_field (first_value (λ v. v.capture_enabled) cs)
  retrieval_enabled ← resolved_field (first_value (λ v. v.retrieval_enabled) cs)
  degraded_outcomes ← resolved_field (first_value (λ v. v.degraded_outcomes) cs)
  ok (record {
    id = id;
    hard_blocking = hard_blocking;
    warnings_enabled = warnings_enabled;
    capture_enabled = capture_enabled;
    retrieval_enabled = retrieval_enabled;
    degraded_outcomes = degraded_outcomes;
  })

unfoldable pub default_id : Option Text → Text
default_id none = codes "normal"
default_id (some id) = id

-- The last two candidates, with the id of the default.
unfoldable pub default_candidates :
    Profiles → ProfileResolutionInput → Text → Result ProfileResolutionError (List Candidate)
default_candidates registry input id = do
  c7 ← setting_candidate global_default input.global_default registry
  c8 ← setting_candidate built_in_default (some (by_id id)) registry
  ok (c7 ++ c8)

-- The candidates from the repository's on.
unfoldable pub global_candidates :
    Profiles
    → ProfileResolutionInput
    → (globals : List MatchedSelector) → Text
    → Result ProfileResolutionError (List Candidate)
global_candidates registry input globals id = do
  c4 ← setting_candidate repository_shared input.repository_shared registry
  exact_global ← select_exact globals
  c5 ← selector_candidate global_exact exact_global registry
  wild_global ← select_wildcard globals
  c6 ← selector_candidate global_wildcard wild_global registry
  rest ← default_candidates registry input id
  ok (c4 ++ (c5 ++ (c6 ++ rest)))

module _ (lower : Text → Text) (normalize_remote : Text → Option Text) (built_in : List Text)
    (registry : Profiles) (lineage : Text → Bool) where
  abbrev pub check_workspace : Option Text → Result ProfileResolutionError (Unit {0})
  check_workspace none = ok tt
  check_workspace (some p) = do
    normalized ← as_resolution_error (normalize_runtime_path lower p)
    ok tt

  abbrev pub check_remote : Option Text → Result ProfileResolutionError (Unit {0})
  check_remote none = ok tt
  check_remote (some url) = do
    normalized ← normalize_git_remote_url lower normalize_remote url
    ok tt

  -- The candidates, in the order of precedence.
  unfoldable pub collect_candidates :
      ProfileResolutionInput → Result ProfileResolutionError (List Candidate)
  collect_candidates input = do
    check_workspace input.facts.workspace_path
    check_remote input.facts.remote_url
    locals ← match_selectors lower normalize_remote input.local_selectors input.facts
    globals ← match_selectors lower normalize_remote input.global_selectors input.facts
    let id = default_id input.built_in_default
    guard (any (◌==◌ id) built_in) unknown_built_in
    c1 ← setting_candidate session_override input.session_override registry
    exact_local ← select_exact locals
    c2 ← selector_candidate local_exact exact_local registry
    wild_local ← select_wildcard locals
    c3 ← selector_candidate local_wildcard wild_local registry
    rest ← global_candidates registry input globals id
    ok (c1 ++ (c2 ++ (c3 ++ rest)))

  unfoldable pub resolve_profile_target :
      ProfileResolutionInput → Result ProfileResolutionError ResolvedProfileTarget
  resolve_profile_target input = do
    candidates ← collect_candidates input
    resolved ← resolve_fields candidates
    guard (not (lineage resolved.id.value && not resolved.capture_enabled.value))
        learning_without_capture
    ok resolved
