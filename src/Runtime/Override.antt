-- ===== src/Runtime/Override.antt =====
-- src/runtime/override.ts: the overrides that a person grants, and the checks of their fields.
-- `Date.parse` with `toISOString` is the parameter `is_iso`, the screening of persisted text in
-- review/sanitizer.ts is `safe`, and SHA-256 of a canonical signature is `sign`.
pub mod Grant
pub mod Apply
pub mod Laws
pub mod Narrow
pub mod RoundTrip
pub mod Audit
pub mod AuditLaws
use agent_experience_agentic.Common.{
  ℕ, Text, ◌==◌, List, [], ◌∷◌, Bool, true, false, not, ◌&&◌, ◌||◌, Option, none, some, Result, ok,
  err, ◌>>=◌, ◌>>◌, guard, length, all, any, leb, nat_eq, trim, is_empty,
}
use agent_experience_agentic.Runtime.Contracts.{
  RuntimeSignature, action, intent, ActionSignature, DecisionReference,
}
use agent_experience_agentic.Runtime.Paths.{PathError}
use agent_experience_agentic.Runtime.Matcher.{
  CanonicalSignature, canonical_signature, signature_path, or_empty,
}

pub data OverrideScope : Type 0 where
  rule_scope action_scope task_session_scope : Text → OverrideScope

pub data OverrideInputScope : Type 0 where
  rule_input task_session_input : Text → OverrideInputScope
  action_input : RuntimeSignature → OverrideInputScope

pub record RuntimeOverride : Type 0 where
  pub id : Text
  pub scope : OverrideScope
  pub reason : Text
  pub created_at : Text
  pub expires_at : Option Text

pub record RuntimeOverrideInput : Type 0 where
  pub id : Text
  pub scope : OverrideInputScope
  pub reason : Text
  pub created_at : Text
  pub expires_at : Option Text

-- The errors that the functions throw; the field a message names is left out.
pub data OverrideError : Type 0 where
  empty_text over_limit untrimmed unsafe_text not_an_identifier not_a_timestamp expiry_too_early
        reason_not_canonical invalid_scope too_many_arguments too_many_references unexpected_outcome
        missing_outcome outside_validity duplicate_reference :
      OverrideError
  path_error : PathError → OverrideError

abbrev pub max_identifier_length : ℕ
max_identifier_length = 512

abbrev pub max_text_length : ℕ
max_text_length = 4096

abbrev pub max_references : ℕ
max_references = 100

abbrev pub as_override_error {ℓ} : {A : Type ℓ} → Result PathError A → Result OverrideError A
as_override_error (err e) = err (path_error e)
as_override_error (ok a) = ok a

-- The ranges a-z, A-Z and 0-9 of the patterns.
abbrev pub between : ℕ → ℕ → ℕ → Bool
between low high c = leb low c && leb c high

unfoldable pub is_hex_digit : ℕ → Bool
is_hex_digit c = between 97 102 c || between 48 57 c

unfoldable pub is_signature_hash : Text → Bool
unfolding is_hex_digit
is_signature_hash value = nat_eq (length value) 64 && all is_hex_digit value

unfoldable pub is_alphanumeric : ℕ → Bool
is_alphanumeric c = between 65 90 c || between 97 122 c || between 48 57 c

-- `[A-Za-z0-9._:@-]`.
unfoldable pub is_identifier_unit : ℕ → Bool
unfolding is_alphanumeric
is_identifier_unit c =
    is_alphanumeric c || nat_eq c 46 || nat_eq c 95 || nat_eq c 58 || nat_eq c 64 || nat_eq c 45

unfoldable pub is_canonical_identifier : Text → Bool
unfolding is_alphanumeric is_identifier_unit
is_canonical_identifier [] = false
is_canonical_identifier (c ∷ s) = is_alphanumeric c && all is_identifier_unit s

unfoldable pub assert_non_empty : Text → Result OverrideError (Unit {0})
assert_non_empty value = guard (not (is_empty (trim value))) empty_text

unfoldable pub assert_bounded : Text → ℕ → Result OverrideError (Unit {0})
assert_bounded value maximum = guard (leb (length value) maximum) over_limit

abbrev pub assert_all_bounded : List Text → Result OverrideError (Unit {0})
assert_all_bounded [] = ok tt
assert_all_bounded (value ∷ values) = do
  assert_bounded value max_text_length
  assert_all_bounded values

abbrev assert_action_resources : ActionSignature → Result OverrideError (Unit {0})
assert_action_resources s = do
  assert_non_empty s.tool
  assert_non_empty s.action
  assert_bounded s.tool max_text_length
  assert_bounded s.action max_text_length
  guard (leb (length (or_empty s.arguments)) max_references) too_many_arguments
  assert_all_bounded (or_empty s.arguments)

abbrev assert_kind_resources : RuntimeSignature → Result OverrideError (Unit {0})
assert_kind_resources (action s) = assert_action_resources s
assert_kind_resources (intent s) = ok tt

abbrev assert_path_resources : Option Text → Result OverrideError (Unit {0})
assert_path_resources none = ok tt
assert_path_resources (some path) = assert_bounded path max_text_length

unfoldable pub validate_action_signature_resources :
    RuntimeSignature → Result OverrideError (Unit {0})
validate_action_signature_resources signature = do
  assert_kind_resources signature
  assert_path_resources (signature_path signature)

module _ (lower : Text → Text) (sign : CanonicalSignature → Text) where
  unfoldable pub hash_signature : RuntimeSignature → Result OverrideError Text
  hash_signature signature = do
    validate_action_signature_resources signature
    canonical ← as_override_error (canonical_signature lower signature)
    ok (sign canonical)

module _ (is_iso safe : Text → Bool) where
  unfoldable pub assert_timestamp : Text → Result OverrideError (Unit {0})
  assert_timestamp value = guard (not (is_empty value) && is_iso value) not_a_timestamp

  unfoldable pub assert_durable_text_safe : Text → Result OverrideError (Unit {0})
  assert_durable_text_safe value = guard (safe value) unsafe_text

  unfoldable pub checked_identifier : Text → Result OverrideError Text
  checked_identifier value = do
    assert_non_empty value
    assert_bounded value max_identifier_length
    guard (value == trim value) untrimmed
    assert_durable_text_safe value
    guard (is_canonical_identifier value) not_an_identifier
    ok value

  unfoldable pub checked_persisted_text : Text → Result OverrideError Text
  checked_persisted_text value = do
    assert_non_empty value
    assert_bounded value max_text_length
    guard (value == trim value) untrimmed
    assert_durable_text_safe value
    ok value
