-- ===== src/Config/Settings.antt =====
-- src/config/profile-resolver.ts: settings, and the candidate values that they give. A value has
-- the fields and types that its interface declares. Freezing a value gives the value.
use agent_experience_agentic.Common.{
  Text, ◌==◌, List, [], ◌∷◌, Bool, not, if◌then◌else◌, Option, none, some, Result, ok, err, ◌>>=◌,
  ◌>>◌, guard, trim, is_empty,
}
use agent_experience_agentic.Runtime.Contracts.{DegradedOutcomes, RuntimeProfile}
use agent_experience_agentic.Runtime.Paths.{PathError}

pub data ProfileSource : Type 0 where
  session_override local_exact local_wildcard repository_shared global_exact global_wildcard
        global_default built_in_default :
      ProfileSource

pub record RuntimeProfileSetting : Type 0 where
  pub profile : Option Text
  pub hard_blocking : Option Bool
  pub warnings_enabled : Option Bool
  pub capture_enabled : Option Bool
  pub retrieval_enabled : Option Bool
  pub degraded_outcomes : Option DegradedOutcomes

pub data RuntimeProfileSelection : Type 0 where
  by_id : Text → RuntimeProfileSelection
  by_setting : RuntimeProfileSetting → RuntimeProfileSelection

pub data TargetKind : Type 0 where
  remote path : TargetKind

pub record ProfileTargetSelector : Type 0 where
  pub target : TargetKind
  pub pattern : Text
  pub profile : RuntimeProfileSelection

pub record ProfileTargetFacts : Type 0 where
  pub workspace_path : Option Text
  pub remote_url : Option Text

-- The errors that are thrown; `remote_error` is one of `normalizeGitRemoteUrl`.
pub data ProfileResolutionError : Type 0 where
  empty_setting_profile empty_profile_id unknown_profile empty_pattern ambiguous_exact
        ambiguous_wildcard unknown_built_in no_value_resolved learning_without_capture
        remote_error :
      ProfileResolutionError
  path_error : PathError → ProfileResolutionError

abbrev pub as_resolution_error {ℓ} :
    {A : Type ℓ} → Result PathError A → Result ProfileResolutionError A
as_resolution_error (err e) = err (path_error e)
as_resolution_error (ok a) = ok a

-- `Partial<RuntimeProfile>`.
pub record PartialProfile : Type 0 where
  pub id : Option Text
  pub hard_blocking : Option Bool
  pub warnings_enabled : Option Bool
  pub capture_enabled : Option Bool
  pub retrieval_enabled : Option Bool
  pub degraded_outcomes : Option DegradedOutcomes

pub record SelectorTrace : Type 0 where
  pub target : TargetKind
  pub pattern : Text
  pub normalized_pattern : Text

pub record Candidate : Type 0 where
  pub source : ProfileSource
  pub values : PartialProfile
  pub profile_id : Option Text
  pub selector : Option SelectorTrace

-- What `resolveSetting` returns.
pub record ResolvedSetting : Type 0 where
  pub values : PartialProfile
  pub profile_id : Option Text

-- The profiles of a registry by their ids.
abbrev pub Profiles : Type 0
Profiles = List (Text × RuntimeProfile)

unfoldable pub lookup_profile : Text → Profiles → Option RuntimeProfile
lookup_profile id [] = none
lookup_profile id ((key, profile) ∷ rest) =
    let later = lookup_profile id rest in if key == id then some profile else later

abbrev pub empty_values : PartialProfile
empty_values = record {
  id = none;
  hard_blocking = none;
  warnings_enabled = none;
  capture_enabled = none;
  retrieval_enabled = none;
  degraded_outcomes = none;
}

abbrev pub all_values : RuntimeProfile → PartialProfile
all_values p = record {
  id = some p.id;
  hard_blocking = some p.hard_blocking;
  warnings_enabled = some p.warnings_enabled;
  capture_enabled = some p.capture_enabled;
  retrieval_enabled = some p.retrieval_enabled;
  degraded_outcomes = some p.degraded_outcomes;
}

unfoldable pub is_non_empty_string : Text → Bool
is_non_empty_string value = not (is_empty (trim value))

abbrev known_profile : Option RuntimeProfile → Result ProfileResolutionError RuntimeProfile
known_profile none = err unknown_profile
known_profile (some profile) = ok profile

unfoldable pub profile_values : Text → Profiles → Result ProfileResolutionError ResolvedSetting
unfolding lookup_profile
profile_values id registry = do
  guard (is_non_empty_string id) empty_profile_id
  profile ← known_profile (lookup_profile id registry)
  ok (record { values = all_values profile; profile_id = some id })

-- `value !== undefined` overrides the base.
abbrev pub or_base {ℓ} : {A : Type ℓ} → Option A → Option A → Option A
or_base none base = base
or_base (some a) base = some a

abbrev base_values : Option Text → Profiles → Result ProfileResolutionError PartialProfile
base_values none registry = ok empty_values
base_values (some id) registry = do
  guard (is_non_empty_string id) empty_setting_profile
  resolved ← profile_values id registry
  ok resolved.values

unfoldable pub resolve_setting :
    RuntimeProfileSelection → Profiles → Result ProfileResolutionError ResolvedSetting
resolve_setting (by_id id) registry = profile_values id registry
resolve_setting (by_setting s) registry = do
  base ← base_values s.profile registry
  ok (record {
    values = record {
      id = base.id;
      hard_blocking = or_base s.hard_blocking base.hard_blocking;
      warnings_enabled = or_base s.warnings_enabled base.warnings_enabled;
      capture_enabled = or_base s.capture_enabled base.capture_enabled;
      retrieval_enabled = or_base s.retrieval_enabled base.retrieval_enabled;
      degraded_outcomes = or_base s.degraded_outcomes base.degraded_outcomes;
    };
    profile_id = s.profile;
  })
