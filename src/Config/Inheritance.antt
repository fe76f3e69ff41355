-- ===== src/Config/Inheritance.antt =====
-- src/config/runtime-profile.ts: the built-in profiles, and custom ones that inherit. A value has the
-- fields and types that its interface declares; freezing gives the value. A Map and a record
-- without prototype are lists by key, in insertion order.
use agent_experience_agentic.Common.{
  ℕ, zero, suc, Text, codes, ◌==◌, List, [], ◌∷◌, ◌++◌, Bool, true, false, not, ◌&&◌, ◌||◌,
  if◌then◌else◌, Option, none, some, is_some, Result, ok, err, ◌>>=◌, ◌>>◌, guard, length, any,
}
use agent_experience_agentic.Runtime.Contracts.{
  allow, warn, block, DegradedOutcomes, RuntimeProfile,
}
use agent_experience_agentic.Config.Settings.{Profiles, lookup_profile, is_non_empty_string}

pub record CustomRuntimeProfileDefinition : Type 0 where
  pub id : Text
  pub extends : Text
  pub hard_blocking : Option Bool
  pub warnings_enabled : Option Bool
  pub capture_enabled : Option Bool
  pub retrieval_enabled : Option Bool
  pub degraded_outcomes : Option DegradedOutcomes

pub record RuntimeProfileRegistry : Type 0 where
  pub definitions : List CustomRuntimeProfileDefinition
  pub profiles : Profiles
  pub learning_profile_ids : List Text

-- The errors that are thrown; `out_of_fuel` is none of them (see `resolve_profile`).
pub data RuntimeProfileConfigurationError : Type 0 where
  duplicate_id circular_inheritance unknown_parent learning_without_capture invalid_key
        invalid_learning_lineage profiles_differ lineage_differs empty_id empty_parent
        id_differs_from_key out_of_fuel :
      RuntimeProfileConfigurationError

abbrev pub learning : Text
learning = codes "learning"

abbrev pub default_degraded_outcomes : DegradedOutcomes
default_degraded_outcomes = record { normal = allow; caution = warn; protected = block }

abbrev pub normal_profile : RuntimeProfile
normal_profile = record {
  id = codes "normal";
  hard_blocking = true;
  warnings_enabled = true;
  capture_enabled = true;
  retrieval_enabled = true;
  degraded_outcomes = default_degraded_outcomes;
}

abbrev pub learning_profile : RuntimeProfile
learning_profile = record normal_profile { id = learning; hard_blocking = false }

abbrev pub observe_only_profile : RuntimeProfile
observe_only_profile = record normal_profile {
  id = codes "observe-only";
  hard_blocking = false;
  warnings_enabled = false;
}

abbrev pub built_in_runtime_profiles : Profiles
built_in_runtime_profiles =
    (normal_profile.id, normal_profile)
    ∷ (learning_profile.id, learning_profile)
    ∷ (observe_only_profile.id, observe_only_profile)
    ∷ []

abbrev pub built_in_runtime_profile_registry : RuntimeProfileRegistry
built_in_runtime_profile_registry = record {
  definitions = [];
  profiles = built_in_runtime_profiles;
  learning_profile_ids = learning ∷ [];
}

-- `value ?? parent's value`, for a field that the definition may leave out.
abbrev pub overriding {ℓ} : {A : Type ℓ} → Option A → A → A
overriding none inherited = inherited
overriding (some value) inherited = value

-- `{ ...parent, ...runtimeOverrides(definition), id: definition.id }`.
unfoldable pub inherited_profile : CustomRuntimeProfileDefinition → RuntimeProfile → RuntimeProfile
inherited_profile d parent = record {
  id = d.id;
  hard_blocking = overriding d.hard_blocking parent.hard_blocking;
  warnings_enabled = overriding d.warnings_enabled parent.warnings_enabled;
  capture_enabled = overriding d.capture_enabled parent.capture_enabled;
  retrieval_enabled = overriding d.retrieval_enabled parent.retrieval_enabled;
  degraded_outcomes = overriding d.degraded_outcomes parent.degraded_outcomes;
}

unfoldable pub definition_by_id :
    Text → List CustomRuntimeProfileDefinition → Option CustomRuntimeProfileDefinition
definition_by_id id [] = none
definition_by_id id (d ∷ ds) =
    let later = definition_by_id id ds in if d.id == id then some d else later

-- A resolved profile, and whether it is of the learning lineage.
pub record ResolvedEntry : Type 0 where
  pub profile : RuntimeProfile
  pub inherits_learning : Bool

-- The two maps `resolved` and `learningLineage` together, by the profile's id.
abbrev pub Resolved : Type 0
Resolved = List ResolvedEntry

unfoldable pub resolved_by_id : Text → Resolved → Option ResolvedEntry
resolved_by_id id [] = none
resolved_by_id id (e ∷ es) =
    let later = resolved_by_id id es in if e.profile.id == id then some e else later

abbrev pub initially_resolved : Resolved
initially_resolved =
    record { profile = normal_profile; inherits_learning = false }
    ∷ record { profile = learning_profile; inherits_learning = true }
    ∷ record { profile = observe_only_profile; inherits_learning = false }
    ∷ []

module _ (definitions : List CustomRuntimeProfileDefinition) where
  -- What follows the resolution of the parent.
  unfoldable pub add_child :
      CustomRuntimeProfileDefinition
      → ResolvedEntry × Resolved
      → Result RuntimeProfileConfigurationError (ResolvedEntry × Resolved)
  add_child d (parent, resolved) = do
    let inherits = d.extends == learning || parent.inherits_learning
    let profile = inherited_profile d parent.profile
    guard (not (inherits && not profile.capture_enabled)) learning_without_capture
    let entry : ResolvedEntry = record { profile = profile; inherits_learning = inherits }
    ok (entry, resolved ++ entry ∷ [])

  abbrev pub needed :
      Option CustomRuntimeProfileDefinition
      → Result RuntimeProfileConfigurationError CustomRuntimeProfileDefinition
  needed none = err unknown_parent
  needed (some d) = ok d

  -- A profile that is resolved already is returned.
  abbrev pub known_or :
      Option ResolvedEntry
      → Resolved
      → Result RuntimeProfileConfigurationError (ResolvedEntry × Resolved)
      → Result RuntimeProfileConfigurationError (ResolvedEntry × Resolved)
  known_or none resolved later = later
  known_or (some e) resolved later = ok (e, resolved)

  -- The recursive function `resolve`; `resolving` is the path of the calls under way, and the fuel
  -- bounds its length.
  unfoldable pub resolve_profile :
      ℕ
      → List Text
      → Text
      → Resolved
      → Result RuntimeProfileConfigurationError (ResolvedEntry × Resolved)
  resolve_profile zero resolving id resolved = known_or (resolved_by_id id resolved) resolved (do
    guard (not (any (◌==◌ id) resolving)) circular_inheritance
    d ← needed (definition_by_id id definitions)
    err out_of_fuel)
  resolve_profile (suc fuel) resolving id resolved =
      known_or (resolved_by_id id resolved) resolved (do
        guard (not (any (◌==◌ id) resolving)) circular_inheritance
        d ← needed (definition_by_id id definitions)
        parent ← resolve_profile fuel (id ∷ resolving) d.extends resolved
        add_child d parent)

  unfoldable pub resolve_all :
      List CustomRuntimeProfileDefinition
      → Resolved
      → Result RuntimeProfileConfigurationError Resolved
  resolve_all [] resolved = ok resolved
  resolve_all (d ∷ ds) resolved = do
    found ← resolve_profile (length definitions) [] d.id resolved
    resolve_all ds found.1

-- `validateDefinition`, the checks on the two names.
unfoldable pub validate_definition :
    CustomRuntimeProfileDefinition → Result RuntimeProfileConfigurationError (Unit {0})
validate_definition d = do
  guard (is_non_empty_string d.id) empty_id
  guard (is_non_empty_string d.extends) empty_parent

unfoldable pub validate_definitions :
    List CustomRuntimeProfileDefinition → Result RuntimeProfileConfigurationError (Unit {0})
validate_definitions [] = ok tt
validate_definitions (d ∷ ds) = do validate_definition d; validate_definitions ds

-- The loop that fills `definitionsById`, with the ids that it has seen.
unfoldable pub check_ids :
    List Text
    → List CustomRuntimeProfileDefinition
    → Result RuntimeProfileConfigurationError (Unit {0})
check_ids seen [] = ok tt
check_ids seen (d ∷ ds) = do
  guard (not (is_some (lookup_profile d.id built_in_runtime_profiles) || any (◌==◌ d.id) seen))
      duplicate_id
  check_ids (d.id ∷ seen) ds

abbrev pub resolved_profiles : Resolved → Profiles
resolved_profiles [] = []
resolved_profiles (e ∷ es) = (e.profile.id, e.profile) ∷ resolved_profiles es

abbrev pub learning_ids : Resolved → List Text
learning_ids [] = []
learning_ids (e ∷ es) =
    let rest = learning_ids es in if e.inherits_learning then e.profile.id ∷ rest else rest

unfoldable pub define_runtime_profiles :
    List CustomRuntimeProfileDefinition
    → Result RuntimeProfileConfigurationError RuntimeProfileRegistry
define_runtime_profiles definitions = do
  validate_definitions definitions
  check_ids [] definitions
  resolved ← resolve_all definitions definitions initially_resolved
  ok (record {
    definitions = definitions;
    profiles = resolved_profiles resolved;
    learning_profile_ids = learning_ids resolved;
  })

unfoldable pub has_learning_lineage : RuntimeProfileRegistry → Text → Bool
has_learning_lineage registry profile_id = any (◌==◌ profile_id) registry.learning_profile_ids
