-- ===== src/Config/Selectors.antt =====
-- src/config/profile-resolver.ts: the selectors that match a target, and the choice among them.
-- `normalizeGitRemoteUrl` is the parameter `normalize_remote`.
use agent_experience_agentic.Common.{
  ℕ, suc, ◌-◌, Text, List, [], ◌∷◌, ◌++◌, Bool, true, false, not, ◌&&◌, ◌||◌, if◌then◌else◌, Option,
  none, some, Result, ok, err, ◌>>=◌, ◌>>◌, guard, length, filter, nat_eq, ltb,
}
use agent_experience_agentic.Runtime.Paths.{normalize_runtime_path, canonical_runtime_path_identity}
use agent_experience_agentic.Config.Settings.{
  TargetKind, remote, path, ProfileTargetSelector, ProfileTargetFacts, ProfileResolutionError,
  empty_pattern, ambiguous_exact, ambiguous_wildcard, remote_error, as_resolution_error,
  is_non_empty_string,
}

pub record MatchedSelector : Type 0 where
  pub selector : ProfileTargetSelector
  pub normalized_pattern : Text
  pub match_pattern : Text
  pub wildcard_count : ℕ
  pub literal_count : ℕ

-- The line terminators, which `.` does not match.
abbrev is_line_terminator : ℕ → Bool
is_line_terminator c = nat_eq c 10 || nat_eq c 13 || nat_eq c 0x2028 || nat_eq c 0x2029

-- `.*` followed by the test `rest`.
unfoldable pub after_any : (Text → Bool) → Text → Bool
after_any rest [] = rest []
after_any rest (c ∷ s) =
    let later = after_any rest s in rest (c ∷ s) || (not (is_line_terminator c) && later)

abbrev pub same_first : ℕ → (Text → Bool) → Text → Bool
same_first c rest [] = false
same_first c rest (d ∷ s) = nat_eq c d && rest s

-- The anchored expression: a star is `.*`, every other unit is itself.
unfoldable pub glob_matches : Text → Text → Bool
glob_matches [] [] = true
glob_matches [] (_ ∷ _) = false
glob_matches (c ∷ pattern) value =
    let rest = glob_matches pattern in
    if nat_eq c 42 then after_any rest value else same_first c rest value

unfoldable pub count_wildcards : Text → ℕ
count_wildcards [] = 0
count_wildcards (c ∷ s) = let count = count_wildcards s in if nat_eq c 42 then suc count else count

unfoldable pub validate_selector : ProfileTargetSelector → Result ProfileResolutionError (Unit {0})
validate_selector selector = guard (is_non_empty_string selector.pattern) empty_pattern

-- The selectors that `matches.filter(...)` keeps, when there is one at most.
unfoldable pub reject_ambiguity :
    List MatchedSelector
    → ProfileResolutionError
    → Result ProfileResolutionError (Option MatchedSelector)
reject_ambiguity [] error = ok none
reject_ambiguity (m ∷ []) error = ok (some m)
reject_ambiguity (_ ∷ _ ∷ _) error = err error

unfoldable pub select_exact :
    List MatchedSelector → Result ProfileResolutionError (Option MatchedSelector)
select_exact matches =
    reject_ambiguity (filter (λ m. nat_eq m.wildcard_count 0) matches) ambiguous_exact

-- The best counts so far: `none` stands for the start, a literal count of -1.
unfoldable pub better : Option (ℕ × ℕ) → MatchedSelector → Option (ℕ × ℕ)
better none m = some (m.literal_count, m.wildcard_count)
better (some (literals, wildcards)) m =
    if ltb literals m.literal_count
    then some (m.literal_count, m.wildcard_count)
    else if nat_eq m.literal_count literals && ltb m.wildcard_count wildcards
    then some (literals, m.wildcard_count)
    else some (literals, wildcards)

unfoldable pub best_from : Option (ℕ × ℕ) → List MatchedSelector → Option (ℕ × ℕ)
best_from best [] = best
best_from best (m ∷ ms) = best_from (better best m) ms

unfoldable pub is_best : Option (ℕ × ℕ) → MatchedSelector → Bool
is_best none m = false
is_best (some (literals, wildcards)) m =
    nat_eq m.literal_count literals && nat_eq m.wildcard_count wildcards

unfoldable pub select_wildcard :
    List MatchedSelector → Result ProfileResolutionError (Option MatchedSelector)
select_wildcard matches =
    let wildcards = filter (λ m. ltb 0 m.wildcard_count) matches in
    let best = best_from none wildcards in
    reject_ambiguity (filter (is_best best) wildcards) ambiguous_wildcard

module _ (lower : Text → Text) (normalize_remote : Text → Option Text) where
  unfoldable pub normalize_git_remote_url : Text → Result ProfileResolutionError Text
  normalize_git_remote_url url = elim (normalize_remote url) [
    | none ↦ err remote_error
    | some value ↦ ok value
  ]

  -- The pattern as it is shown, and as it is matched.
  unfoldable pub selector_patterns : TargetKind → Text → Result ProfileResolutionError (Text × Text)
  selector_patterns remote pattern = do
    normalized ← normalize_git_remote_url pattern
    ok (normalized, normalized)
  selector_patterns path pattern = do
    normalized ← as_resolution_error (normalize_runtime_path lower pattern)
    identity ← as_resolution_error (canonical_runtime_path_identity lower pattern)
    ok (normalized, identity)

  -- `inputRemote` and `inputPath`.
  unfoldable pub target_fact :
      TargetKind → ProfileTargetFacts → Result ProfileResolutionError (Option Text)
  target_fact remote facts = elim facts.remote_url [
    | none ↦ ok none
    | some url ↦ do fact ← normalize_git_remote_url url; ok (some fact)
  ]
  target_fact path facts = elim facts.workspace_path [
    | none ↦ ok none
    | some p ↦ do
      fact ← as_resolution_error (canonical_runtime_path_identity lower p)
      ok (some fact)
  ]

  abbrev fact_matches : Text → Option Text → Bool
  fact_matches pattern none = false
  fact_matches pattern (some fact) = glob_matches pattern fact

  -- One round of the loop: what the selector adds to the matches.
  unfoldable pub match_selector :
      ProfileTargetSelector
      → ProfileTargetFacts
      → Result ProfileResolutionError (List MatchedSelector)
  match_selector selector facts = do
    validate_selector selector
    patterns ← selector_patterns selector.target selector.pattern
    fact ← target_fact selector.target facts
    let wildcards = count_wildcards patterns.1
    ok (
        if fact_matches patterns.1 fact
        then record {
          selector = selector;
          normalized_pattern = patterns.0;
          match_pattern = patterns.1;
          wildcard_count = wildcards;
          literal_count = length patterns.1 - wildcards;
        }
          ∷ []
        else [])

  unfoldable pub match_selectors :
      List ProfileTargetSelector
      → ProfileTargetFacts
      → Result ProfileResolutionError (List MatchedSelector)
  match_selectors [] facts = ok []
  match_selectors (selector ∷ selectors) facts = do
    first ← match_selector selector facts
    rest ← match_selectors selectors facts
    ok (first ++ rest)
