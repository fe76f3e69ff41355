-- ===== src/Runtime/Matcher.antt =====
-- src/runtime/matcher.ts: the rules that apply to an operation, strongest first. The value that
-- `canonicalSignature` hands to `JSON.stringify` stands for the string, since the writer gives
-- different strings for different values of this shape. `Object.freeze` copies are the values.
pub mod Equality
pub mod Order
pub mod Laws
use agent_experience_agentic.Common.{
  ℕ, Text, ◌==◌, List, [], ◌∷◌, ◌++◌, Bool, true, false, not, ◌&&◌, ◌||◌, if◌then◌else◌, Option,
  none, some, Result, ok, err, ◌>>=◌, ◌>>◌, ltb, any, all, map, trim, text_lt, sort, nat_eq,
  is_some,
}
use agent_experience_agentic.Runtime.Contracts.{
  MatchStrength, exact, metadata, tags, RuntimeSignature, action, intent, RuntimeInput, Scope,
  global, repository, RuleApplicability, RuntimeRule, RuleMatch,
}
use agent_experience_agentic.Runtime.Paths.{
  PathFlavor, posix_absolute, posix_relative, windows_drive_absolute, windows_unc, CanonicalPath,
  PathError, canonical_path, canonical_runtime_path_identity, path_run,
}

-- `===` of optional strings, where neither a missing value nor a present one equals the other.
unfoldable pub option_eq : Option Text → Option Text → Bool
option_eq none none = true
option_eq (some a) (some b) = a == b
option_eq _ _ = false

-- The object that `canonicalSignature` writes, by its `kind`.
pub data CanonicalSignature : Type 0 where
  action_form :
      (tool action : Text) (arguments : List Text) (path : Option CanonicalPath)
      → CanonicalSignature
  intent_form : (verb target tool : Text) (path : Option CanonicalPath) → CanonicalSignature

-- `value ?? []` and `value ?? ''`.
abbrev pub or_empty {ℓ} : {A : Type ℓ} → Option (List A) → List A
or_empty none = []
or_empty (some xs) = xs

abbrev pub signature_path : RuntimeSignature → Option Text
signature_path (action s) = s.path
signature_path (intent s) = s.path

abbrev pub signature_tool : RuntimeSignature → Option Text
signature_tool (action s) = some s.tool
signature_tool (intent s) = s.tool

-- `a.kind === b.kind`.
unfoldable pub same_kind : RuntimeSignature → RuntimeSignature → Bool
same_kind (action _) (action _) = true
same_kind (intent _) (intent _) = true
same_kind _ _ = false

unfoldable pub flavor_eq : PathFlavor → PathFlavor → Bool
flavor_eq posix_absolute posix_absolute = true
flavor_eq posix_relative posix_relative = true
flavor_eq windows_drive_absolute windows_drive_absolute = true
flavor_eq windows_unc windows_unc = true
flavor_eq _ _ = false

unfoldable pub path_eq : Option CanonicalPath → Option CanonicalPath → Bool
unfolding flavor_eq
path_eq none none = true
path_eq (some c) (some d) = flavor_eq c.flavor d.flavor && c.normalized == d.normalized
path_eq _ _ = false

unfoldable pub texts_eq : List Text → List Text → Bool
texts_eq [] [] = true
texts_eq (s ∷ ss) (t ∷ ts) = s == t && texts_eq ss ts
texts_eq _ _ = false

-- Equality of the written signatures.
unfoldable pub signature_eq : CanonicalSignature → CanonicalSignature → Bool
signature_eq (action_form t a args p) (action_form t' a' args' p') =
    t == t' && (a == a' && (texts_eq args args' && path_eq p p'))
signature_eq (intent_form v t o p) (intent_form v' t' o' p') =
    v == v' && (t == t' && (o == o' && path_eq p p'))
signature_eq _ _ = false

unfoldable pub strength_rank : MatchStrength → ℕ
strength_rank exact = 3
strength_rank metadata = 2
strength_rank tags = 1

abbrev pub scope_admits : Scope → Option Text → Bool
scope_admits global id = true
scope_admits (repository r) none = false
scope_admits (repository r) (some i) = i == r

unfoldable pub scope_applies : RuntimeInput → RuntimeRule → Bool
scope_applies input rule = scope_admits rule.applicability.scope input.repository_id

-- `tags !== undefined && tags.length > 0`.
abbrev has_tags : Option (List Text) → Bool
has_tags none = false
has_tags (some []) = false
has_tags (some (_ ∷ _)) = true

-- The match that the loop pushes, if there is a strength.
abbrev pub matched : RuntimeInput → RuntimeRule → Option MatchStrength → List RuleMatch
matched input rule none = []
matched input rule (some s) =
    record { rule = rule; strength = s; operation_class = input.operation_class } ∷ []

-- The chain below the comparison of the signatures.
unfoldable pub declared_strength : RuleApplicability → Option MatchStrength
declared_strength a =
    if is_some a.tool || is_some a.path
    then some metadata
    else if has_tags a.tags
    then some tags
    else none

-- The order of the comparison in `matches.sort`: stronger first, then by rule id.
unfoldable pub match_before : RuleMatch → RuleMatch → Bool
unfolding strength_rank
match_before a b =
    ltb (strength_rank b.strength) (strength_rank a.strength)
    || (nat_eq (strength_rank b.strength) (strength_rank a.strength) && text_lt a.rule.id b.rule.id)

module _ (lower : Text → Text) where
  unfoldable pub canonical_token : Text → Text
  canonical_token value = lower (trim value)

  unfoldable pub canonical_optional_path : Option Text → Result PathError (Option CanonicalPath)
  canonical_optional_path none = ok none
  canonical_optional_path (some path) = do
    canonical ← canonical_path lower path
    ok (some canonical)

  unfoldable pub canonical_signature : RuntimeSignature → Result PathError CanonicalSignature
  unfolding canonical_token canonical_optional_path
  canonical_signature (action s) = do
    path ← canonical_optional_path s.path
    ok (action_form (canonical_token s.tool) (canonical_token s.action) (or_empty s.arguments) path)
  canonical_signature (intent s) = do
    path ← canonical_optional_path s.path
    ok (
        intent_form (canonical_token s.verb) (canonical_token s.target)
          (canonical_token (or_empty s.tool)) path)

  unfoldable pub match_strength :
      RuntimeInput → RuntimeRule → Result PathError (Option MatchStrength)
  unfolding same_kind canonical_signature signature_eq declared_strength
  match_strength input rule = if not (same_kind input.signature rule.signature) then ok none else do
    mine ← canonical_signature input.signature
    theirs ← canonical_signature rule.signature
    ok (if signature_eq mine theirs then some exact else declared_strength rule.applicability)

  -- The three constraints of `declaredApplicabilityMatches`.
  unfoldable pub tool_matches : Option Text → RuntimeSignature → Bool
  unfolding canonical_token
  tool_matches none signature = true
  tool_matches (some tool) signature =
      canonical_token tool == canonical_token (or_empty (signature_tool signature))

  unfoldable pub path_matches : Option Text → Option Text → Result PathError Bool
  path_matches none path = ok true
  path_matches (some declared) none = ok false
  path_matches (some declared) (some path) = do
    theirs ← canonical_runtime_path_identity lower declared
    mine ← canonical_runtime_path_identity lower path
    ok (theirs == mine)

  unfoldable pub tags_match : Option (List Text) → Option (List Text) → Bool
  unfolding canonical_token
  tags_match none given = true
  tags_match (some declared) given =
      let input_tags = map canonical_token (or_empty given) in
      all (λ tag. any (◌==◌ (canonical_token tag)) input_tags) declared

  unfoldable pub declared_applicability_matches : RuntimeInput → RuntimeRule → Result PathError Bool
  unfolding tool_matches path_matches tags_match
  declared_applicability_matches input rule =
      let a = rule.applicability in
      if not (tool_matches a.tool input.signature) then ok false else do
        same_path ← path_matches a.path (signature_path input.signature)
        ok (same_path && tags_match a.tags input.tags)

  -- One round of the loop: what the rule adds to the matches.
  unfoldable pub match_rule : RuntimeInput → RuntimeRule → Result PathError (List RuleMatch)
  match_rule input rule = if not (scope_applies input rule) then ok [] else do
    applies ← declared_applicability_matches input rule
    if not applies
        then ok []
        else do strength ← match_strength input rule; ok (matched input rule strength)

  unfoldable pub collect_matches :
      RuntimeInput → List RuntimeRule → Result PathError (List RuleMatch)
  collect_matches input [] = ok []
  collect_matches input (rule ∷ rules) = do
    first ← match_rule input rule
    rest ← collect_matches input rules
    ok (first ++ rest)

  -- `if (input.signature.path !== undefined) canonicalPath(input.signature.path)`.
  unfoldable pub check_path : Option Text → Result PathError (Unit {0})
  check_path none = ok tt
  check_path (some path) = do canonical ← canonical_path lower path; ok tt

  unfoldable pub match_rules : RuntimeInput → List RuntimeRule → Result PathError (List RuleMatch)
  match_rules input rules = do
    check_path (signature_path input.signature)
    matches ← collect_matches input rules
    ok (sort match_before matches)

  -- Opens all that a match is computed by.
  unfoldable pub match_run : Unit {0}
  unfolding match_rules check_path collect_matches match_rule sort match_before scope_applies
      declared_applicability_matches match_strength texts_eq path_eq path_run
      canonical_runtime_path_identity
  match_run = tt
