-- ===== src/SharedKnowledge/Schema.antt =====
-- src/shared-knowledge/schema.ts: identities, applicability and the directives of a document, on
-- typed values. The tests for credentials and private material are regular expressions, and
-- parameters: `is_safe` of assertSafeExportValue and assertDurableTextSafe on a directive, and
-- `arguments_safe` of assertStructuredArgumentsSafe on the arguments, tool and action.
use agent_experience_agentic.Common.{
  ℕ, Text, codes, ◌==◌, List, [], ◌∷◌, Bool, true, false, not, ◌&&◌, ◌||◌, Option, none, some,
  Result, ok, err, ◌>>◌, guard, all, any, length, leb, nat_eq, trim, is_empty, text_lt,
  is_duplicate_free,
}
use agent_experience_agentic.Runtime.Contracts.{RuntimeSignature, action, intent, RuleEffect}
use agent_experience_agentic.Runtime.Paths.{PathError, normalize_runtime_path}
use agent_experience_agentic.Runtime.Matcher.{signature_path, signature_tool}
use agent_experience_agentic.Runtime.Override.{is_alphanumeric}

pub data KnowledgeError : Type 0 where
  invalid_identity invalid_directive private_arguments private_material invalid_repository
        invalid_commit entry_limit inconsistent_commit duplicate_identity inconsistent_tool
        inconsistent_path tags_not_canonical applicability_not_canonical unresolved_commit :
      KnowledgeError

pub record KnowledgeApplicability : Type 0 where
  pub paths : List Text
  pub tags : List Text
  pub tools : List Text

pub record RuntimeDirective : Type 0 where
  pub signature : RuntimeSignature
  pub effect : RuleEffect

abbrev pub max_directive_items : ℕ
max_directive_items = 100

abbrev pub max_index_string_length : ℕ
max_index_string_length = 4096

-- `[A-Za-z0-9._-]`.
abbrev pub is_identity_unit : ℕ → Bool
is_identity_unit c = is_alphanumeric c || nat_eq c 46 || nat_eq c 95 || nat_eq c 45

-- `safeIdentity`; a text of it is not `.` or `..`.
abbrev pub is_safe_identity : Text → Bool
is_safe_identity [] = false
is_safe_identity (c ∷ rest) = is_alphanumeric c && all is_identity_unit rest

unfoldable pub assert_identity : Text → Result KnowledgeError (Unit {0})
assert_identity value =
    guard (is_safe_identity value && (not (value == codes ".") && not (value == codes "..")))
      invalid_identity

abbrev pub is_bounded_text : Text → Bool
is_bounded_text value = not (is_empty value) && leb (length value) max_index_string_length

unfoldable pub canonical_directive_argument : Text → Bool
canonical_directive_argument value =
    is_bounded_text value && not (any (λ c. nat_eq c 13 || nat_eq c 10 || nat_eq c 0) value)

abbrev pub every_option {ℓ} : {A : Type ℓ} → (A → Bool) → Option A → Bool
every_option p none = true
every_option p (some a) = p a

-- `values.length > 0 && (values.length !== 1 || own === undefined || values[0] !== own)`, negated.
unfoldable pub is_consistent : List Text → Option Text → Bool
is_consistent [] own = true
is_consistent (value ∷ []) none = false
is_consistent (value ∷ []) (some own) = value == own
is_consistent (_ ∷ _ ∷ _) own = false

-- Every value is greater than the one before it.
unfoldable pub is_ascending : List Text → Bool
is_ascending [] = true
is_ascending (value ∷ []) = true
is_ascending (value ∷ next ∷ rest) = text_lt value next && is_ascending (next ∷ rest)

abbrev pub is_trimmed_text : Text → Bool
is_trimmed_text value = is_bounded_text value && value == trim value

-- The loop over the three lists of `assertCanonicalV3Applicability`, for one of them.
abbrev pub is_canonical_list : List Text → Bool
is_canonical_list values =
    all is_trimmed_text values && (is_duplicate_free values && is_ascending values)

module _ (lower : Text → Text) where
  abbrev pub consistent_with :
      KnowledgeApplicability → Option RuntimeDirective → Result KnowledgeError (Unit {0})
  consistent_with applicability none = ok tt
  consistent_with applicability (some directive) = do
    guard (is_consistent applicability.tools (signature_tool directive.signature)) inconsistent_tool
    guard (is_consistent applicability.paths (signature_path directive.signature)) inconsistent_path

  unfoldable pub assert_canonical_v3_applicability :
      KnowledgeApplicability → Option RuntimeDirective → Result KnowledgeError (Unit {0})
  assert_canonical_v3_applicability applicability directive = do
    guard
        (is_canonical_list applicability.paths
          && (is_canonical_list applicability.tags && is_canonical_list applicability.tools))
        applicability_not_canonical
    guard
        (all (λ t. t == lower t) applicability.tags && all (λ t. t == lower t) applicability.tools)
        applicability_not_canonical
    consistent_with applicability directive

  unfoldable pub canonical_directive_token : Text → Bool
  canonical_directive_token value =
      is_bounded_text value && (value == trim value && value == lower value)

  abbrev pub is_normal_form : Text → Result PathError Text → Bool
  is_normal_form value (err _) = false
  is_normal_form value (ok normalized) = normalized == value

  unfoldable pub canonical_directive_path : Text → Bool
  canonical_directive_path value =
      is_bounded_text value && is_normal_form value (normalize_runtime_path lower value)

  module _ (arguments_safe : List Text → Text → Text → Bool)
      (is_safe : RuntimeDirective → Bool) where
    unfoldable pub parse_directive_signature : RuntimeSignature → Result KnowledgeError (Unit {0})
    parse_directive_signature (action s) = do
      guard (canonical_directive_token s.tool && canonical_directive_token s.action)
          invalid_directive
      guard
          (every_option
            (λ xs. leb (length xs) max_directive_items && all canonical_directive_argument xs)
            s.arguments)
          invalid_directive
      guard (every_option canonical_directive_path s.path) invalid_directive
      guard (every_option (λ xs. arguments_safe xs s.tool s.action) s.arguments) private_arguments
    parse_directive_signature (intent s) = do
      guard (canonical_directive_token s.verb && canonical_directive_token s.target)
          invalid_directive
      guard (every_option canonical_directive_token s.tool) invalid_directive
      guard (every_option canonical_directive_path s.path) invalid_directive

    -- The directive that is returned has the fields of the value.
    unfoldable pub parse_runtime_directive :
        RuntimeDirective → Result KnowledgeError RuntimeDirective
    parse_runtime_directive value = do
      parse_directive_signature value.signature
      guard (is_safe value) private_material
      ok value
