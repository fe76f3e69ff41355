-- ===== src/Config/Tests.antt =====
-- The theorems of the configuration at concrete inputs.
use agent_experience_agentic.Common.{
  ◌≢◌, err, ◌<◌, Text, codes, List, [], ◌∷◌, Bool, true, false, Option, none, some, ok, ◌≡◌, refl,
  Memᴰ, trim, ◌==◌,
}
use agent_experience_agentic.Runtime.Contracts.{allow, warn, block, RuntimeProfile}
use agent_experience_agentic.Runtime.Paths.{ascii_lower}
use agent_experience_agentic.Config.Settings.{
  Profiles, by_setting, by_id, session_override, built_in_default, RuntimeProfileSetting, path,
  is_non_empty_string, profile_values, resolve_setting, lookup_profile, Candidate,
}
use agent_experience_agentic.Config.Selectors.{
  MatchedSelector, select_wildcard, select_exact, reject_ambiguity, better, best_from, is_best,
  match_selectors,
}
use agent_experience_agentic.Config.Resolver.{
  ProfileResolutionInput, ResolvedProfileTarget, ProfileTraceEntry, setting_candidate,
  selector_candidate, first_value, trace_entry, resolve_fields, default_id, collect_candidates,
  global_candidates, default_candidates, resolve_profile_target,
}
use agent_experience_agentic.Config.Inheritance.{
  CustomRuntimeProfileDefinition, RuntimeProfileRegistry, out_of_fuel, normal_profile,
  learning_profile, observe_only_profile, inherited_profile, definition_by_id, resolved_by_id,
  add_child, resolve_profile, resolve_all, validate_definition, validate_definitions, check_ids,
  define_runtime_profiles,
}
use agent_experience_agentic.Config.Lineage.{
  define_runtime_profiles-fuel, define_runtime_profiles-capture,
}
use agent_experience_agentic.Config.Candidates.{Winners, setting_at, AreCandidates}
use agent_experience_agentic.Config.Collected.{AreWinners}
use agent_experience_agentic.Config.Precedence.{
  IsByPrecedence, resolve_profile_target-IsByPrecedence,
}
use agent_experience_agentic.Config.Wildcards.{AtLeast, counts, select_wildcard-best}

abbrev broad : MatchedSelector
broad = record {
  selector = record { target = path; pattern = codes "/a*"; profile = by_id (codes "quiet") };
  normalized_pattern = codes "/a*";
  match_pattern = codes "/a*";
  wildcard_count = 1;
  literal_count = 2;
}

abbrev narrow : MatchedSelector
narrow = record {
  selector = record { target = path; pattern = codes "/a/b*"; profile = by_id (codes "normal") };
  normalized_pattern = codes "/a/b*";
  match_pattern = codes "/a/b*";
  wildcard_count = 1;
  literal_count = 4;
}

chosen : select_wildcard (broad ∷ narrow ∷ []) ≡ ok (some narrow)
unfolding select_wildcard reject_ambiguity better best_from is_best
chosen = refl

select_wildcard-best_example :
    Memᴰ narrow (broad ∷ narrow ∷ [])
    × (0 < 1)
    × ((n : MatchedSelector)
        → Memᴰ n (broad ∷ narrow ∷ [])
        → 0 < n.wildcard_count
        → AtLeast (counts narrow) (counts n))
select_wildcard-best_example = select_wildcard-best (broad ∷ narrow ∷ []) chosen

abbrev plain_profile : RuntimeProfile
plain_profile = record {
  id = codes "normal";
  hard_blocking = true;
  warnings_enabled = true;
  capture_enabled = true;
  retrieval_enabled = true;
  degraded_outcomes = record { normal = allow; caution = warn; protected = block };
}

abbrev registry : Profiles
registry = (codes "normal", plain_profile) ∷ []

abbrev soft : RuntimeProfileSetting
soft = record {
  profile = none;
  hard_blocking = some false;
  warnings_enabled = none;
  capture_enabled = none;
  retrieval_enabled = none;
  degraded_outcomes = none;
}

abbrev request : ProfileResolutionInput
request = record {
  facts = record { workspace_path = none; remote_url = none };
  session_override = some (by_setting soft);
  local_selectors = [];
  repository_shared = none;
  global_selectors = [];
  global_default = none;
  built_in_default = none;
}

abbrev by_default : ProfileTraceEntry
by_default = record {
  source = built_in_default;
  profile_id = some (codes "normal");
  selector = none;
}

abbrev outcome : ResolvedProfileTarget
outcome = record {
  id = record { value = codes "normal"; entry = by_default };
  hard_blocking = record {
    value = false;
    entry = record { source = session_override; profile_id = none; selector = none };
  };
  warnings_enabled = record { value = true; entry = by_default };
  capture_enabled = record { value = true; entry = by_default };
  retrieval_enabled = record { value = true; entry = by_default };
  degraded_outcomes = record { value = plain_profile.degraded_outcomes; entry = by_default };
}

abbrev no_remote : Text → Option Text
no_remote _ = none

abbrev is_learning : Text → Bool
is_learning _ = true

resolved :
    resolve_profile_target ascii_lower no_remote (codes "normal" ∷ []) registry is_learning request
    ≡ ok outcome
unfolding resolve_profile_target collect_candidates global_candidates default_candidates
    resolve_fields first_value trace_entry setting_candidate selector_candidate select_exact
    select_wildcard reject_ambiguity best_from match_selectors default_id resolve_setting
    profile_values is_non_empty_string trim ◌==◌ is_best
resolved = refl

resolve_profile_target-IsByPrecedence_example :
    (w : Winners) × (cs : List Candidate) × AreWinners ascii_lower no_remote
      (codes "normal" ∷ [])
      registry
      is_learning
      request
      w
    × AreCandidates registry (setting_at request w) 0 cs
    × IsByPrecedence cs outcome
    × (is_learning (codes "normal") ≡ true → true ≡ true)
resolve_profile_target-IsByPrecedence_example =
    resolve_profile_target-IsByPrecedence ascii_lower no_remote (codes "normal" ∷ []) registry
      is_learning request resolved

-- A profile that extends the learning one.
abbrev strict_learning : CustomRuntimeProfileDefinition
strict_learning = record {
  id = codes "strict";
  extends = codes "learning";
  hard_blocking = some true;
  warnings_enabled = none;
  capture_enabled = none;
  retrieval_enabled = none;
  degraded_outcomes = none;
}

abbrev strict_profile : RuntimeProfile
strict_profile = record learning_profile { id = codes "strict"; hard_blocking = true }

abbrev defined_registry : RuntimeProfileRegistry
defined_registry = record {
  definitions = strict_learning ∷ [];
  profiles =
      (codes "normal", normal_profile)
      ∷ (codes "learning", learning_profile)
      ∷ (codes "observe-only", observe_only_profile)
      ∷ (codes "strict", strict_profile)
      ∷ [];
  learning_profile_ids = codes "learning" ∷ codes "strict" ∷ [];
}

defined : define_runtime_profiles (strict_learning ∷ []) ≡ ok defined_registry
unfolding define_runtime_profiles resolve_all resolve_profile add_child inherited_profile
    definition_by_id resolved_by_id check_ids validate_definitions validate_definition
    is_non_empty_string lookup_profile trim ◌==◌
defined = refl

define_runtime_profiles-fuel_example :
    define_runtime_profiles (strict_learning ∷ []) ≢ err out_of_fuel
define_runtime_profiles-fuel_example = define_runtime_profiles-fuel (strict_learning ∷ [])

define_runtime_profiles-capture_example :
    (p : RuntimeProfile) × Memᴰ (codes "strict", p) defined_registry.profiles
    × (p.capture_enabled ≡ true)
define_runtime_profiles-capture_example =
    define_runtime_profiles-capture (strict_learning ∷ []) (codes "strict") defined
      (Memᴰ.tail (Memᴰ.head refl))
