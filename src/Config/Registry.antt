-- ===== src/Config/Registry.antt =====
-- src/config/runtime-profile.ts: `validateRuntimeProfileRegistry`, which derives the profiles of a
-- stored registry again and compares.
use agent_experience_agentic.Common.{
  Text, ◌==◌, List, [], ◌∷◌, Bool, true, false, not, ◌&&◌, none, some, is_some, Result, ok, ◌>>=◌,
  ◌>>◌, guard, length, any, all, nat_eq,
}
use agent_experience_agentic.Runtime.Contracts.{DecisionOutcome, allow, warn, block, RuntimeProfile}
use agent_experience_agentic.Config.Settings.{Profiles, lookup_profile, is_non_empty_string}
use agent_experience_agentic.Config.Inheritance.{
  RuntimeProfileRegistry, RuntimeProfileConfigurationError, invalid_key, id_differs_from_key,
  invalid_learning_lineage, profiles_differ, lineage_differs, define_runtime_profiles,
}

unfoldable pub outcome_eq : DecisionOutcome → DecisionOutcome → Bool
outcome_eq allow allow = true
outcome_eq warn warn = true
outcome_eq block block = true
outcome_eq _ _ = false

-- `===` of booleans.
abbrev bool_eq : Bool → Bool → Bool
bool_eq true b = b
bool_eq false b = not b

unfoldable pub same_profile : RuntimeProfile → RuntimeProfile → Bool
unfolding outcome_eq
same_profile left right =
    left.id == right.id
    && (bool_eq left.hard_blocking right.hard_blocking
        && (bool_eq left.warnings_enabled right.warnings_enabled
            && (bool_eq left.capture_enabled right.capture_enabled
                && (bool_eq left.retrieval_enabled right.retrieval_enabled
                    && (outcome_eq left.degraded_outcomes.normal right.degraded_outcomes.normal
                        && (outcome_eq left.degraded_outcomes.caution
                              right.degraded_outcomes.caution
                            && outcome_eq left.degraded_outcomes.protected
                                right.degraded_outcomes.protected))))))

-- `Object.hasOwn(right, id) && sameProfile(left[id], right[id])`.
unfoldable pub is_same_in : Profiles → Text × RuntimeProfile → Bool
is_same_in right (id, profile) = elim (lookup_profile id right) [
  | none ↦ false
  | some other ↦ same_profile profile other
]

unfoldable pub same_profile_records : Profiles → Profiles → Bool
same_profile_records left right = nat_eq (length left) (length right) && all (is_same_in right) left

unfoldable pub check_keys : Profiles → Result RuntimeProfileConfigurationError (Unit {0})
check_keys [] = ok tt
check_keys ((key, profile) ∷ rest) = do guard (is_non_empty_string key) invalid_key; check_keys rest

-- `validateCompleteProfile` of every profile under its key.
unfoldable pub check_complete_profiles :
    Profiles → Result RuntimeProfileConfigurationError (Unit {0})
check_complete_profiles [] = ok tt
check_complete_profiles ((key, profile) ∷ rest) = do
  guard (profile.id == key) id_differs_from_key
  check_complete_profiles rest

unfoldable pub check_learning_ids :
    Profiles → List Text → List Text → Result RuntimeProfileConfigurationError (Unit {0})
check_learning_ids profiles seen [] = ok tt
check_learning_ids profiles seen (id ∷ ids) = do
  guard (is_non_empty_string id && not (any (◌==◌ id) seen) && is_some (lookup_profile id profiles))
      invalid_learning_lineage
  check_learning_ids profiles (id ∷ seen) ids

unfoldable pub same_ids : List Text → List Text → Bool
same_ids [] [] = true
same_ids (a ∷ rest) (b ∷ others) = a == b && same_ids rest others
same_ids _ _ = false

-- `validateRuntimeProfileRegistry` of a value that has the fields of a registry.
unfoldable pub validate_runtime_profile_registry :
    RuntimeProfileRegistry → Result RuntimeProfileConfigurationError RuntimeProfileRegistry
validate_runtime_profile_registry value = do
  check_keys value.profiles
  check_complete_profiles value.profiles
  check_learning_ids value.profiles [] value.learning_profile_ids
  reconstructed ← define_runtime_profiles value.definitions
  guard (same_profile_records value.profiles reconstructed.profiles) profiles_differ
  guard (same_ids value.learning_profile_ids reconstructed.learning_profile_ids) lineage_differs
  ok reconstructed
