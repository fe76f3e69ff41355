-- ===== src/Learning/Typed/Gaps.antt =====
-- typedEpisodes of src/learning/detectors.ts, continued: verification gaps, repeated acceptances and
-- the whole.
use agent_experience_agentic.Common.{
  Text, codes, ◌==◌, List, [], ◌∷◌, ◌++◌, Bool, true, not, ◌&&◌, ◌||◌, if◌then◌else◌, Option, none,
  some, is_some, any, filter, find, ltb, nat_eq, sort, Result, ok, ◌>>=◌, ◌>>◌,
}
use agent_experience_agentic.Learning.Episodes.{
  EpisodeEvidence, unresolved, outcome_observed, verification_gap, repeated_acceptance_of, listed,
  LearningError, create_episode_evidence, create_typed_episode, assert_identifier,
  freeze_identifiers, assert_evidence_identifier, freeze_evidence_identifiers, check_identities,
  create_operational_episode, check_detail, assert_references, assert_text,
}
use agent_experience_agentic.Learning.Typed.{
  DetectorInput, Derived, episode, finding, is_decision, is_request, is_result, is_succeeded,
  is_claim, is_verification, is_transition, is_closed, is_key, cites, get_all, first_of, id_of,
  criterion_state_of, is_met, priority, typed_episode, corrections_of, correct, correct_all,
  by_evidence_id,
}

abbrev pub matches_closure : EpisodeEvidence → EpisodeEvidence → Bool
matches_closure closure item =
    is_key item.decision_key closure.decision_key && is_key item.scope_key closure.scope_key

-- The evidence found, one item after the other.
pub record GapEvidence : Type 0 where
  pub implementation : Option EpisodeEvidence
  pub check_execution : Option EpisodeEvidence
  pub check_result : Option EpisodeEvidence
  pub criterion : Option EpisodeEvidence

abbrev pub is_implementation : EpisodeEvidence → EpisodeEvidence → Bool
is_implementation closure item =
    not (item.id == closure.id) && (matches_closure closure item && is_result item.kind)

abbrev pub find_execution :
    List EpisodeEvidence → EpisodeEvidence → Option EpisodeEvidence → Option EpisodeEvidence
find_execution evidence closure none = none
find_execution evidence closure (some implementation) =
    find
      (λ item.
        is_request item.kind && (matches_closure closure item && cites item implementation.id))
      evidence

abbrev pub differs_from : Option EpisodeEvidence → EpisodeEvidence → Bool
differs_from none item = true
differs_from (some other) item = not (item.id == other.id)

abbrev pub find_result :
    List EpisodeEvidence
    → EpisodeEvidence
    → (implementation execution : Option EpisodeEvidence) → Option EpisodeEvidence
find_result evidence closure implementation none = none
find_result evidence closure implementation (some execution) =
    find
      (λ item.
        is_result item.kind
        && (differs_from implementation item
            && (matches_closure closure item && cites item execution.id)))
      evidence

module _ (id_lt : Text → Text → Bool) (stable_id : List Text → Text) where
  -- `byVerificationStateThenId`.
  abbrev pub verification_before : EpisodeEvidence → EpisodeEvidence → Bool
  verification_before left right =
      ltb (priority left.state) (priority right.state)
      || (nat_eq (priority left.state) (priority right.state) && id_lt left.id right.id)

  abbrev pub evidence_before : EpisodeEvidence → EpisodeEvidence → Bool
  evidence_before left right = id_lt left.id right.id

  abbrev pub find_criterion :
      List EpisodeEvidence → EpisodeEvidence → Option EpisodeEvidence → Option EpisodeEvidence
  find_criterion evidence closure none = none
  find_criterion evidence closure (some result) = first_of (
      sort verification_before (
        filter
          (λ item.
            is_verification item.kind && (matches_closure closure item && cites item result.id))
          evidence))

  unfoldable pub gap_evidence : List EpisodeEvidence → EpisodeEvidence → GapEvidence
  gap_evidence evidence closure =
      let implementation =
        find (is_implementation closure) (get_all evidence closure.evidence_ids) in
      let execution = find_execution evidence closure implementation in
      let result = find_result evidence closure implementation execution in
      record {
        implementation = implementation;
        check_execution = execution;
        check_result = result;
        criterion = find_criterion evidence closure result;
      }

  -- The body of the loop over the closures.
  unfoldable pub gaps_of : DetectorInput → List EpisodeEvidence → EpisodeEvidence → List Derived
  gaps_of input evidence closure =
      let found = gap_evidence evidence closure in
      let state = criterion_state_of found.criterion in
      if is_met state
      then []
      else typed_episode id_lt stable_id input (codes "verification-gap") unresolved
          (closure.id
            ∷ (listed (id_of found.implementation)
                ++ (listed (id_of found.check_execution)
                    ++ (listed (id_of found.check_result) ++ listed (id_of found.criterion)))))
          (verification_gap (record {
            implementation = id_of found.implementation;
            check_execution = id_of found.check_execution;
            check_result = id_of found.check_result;
            closure = closure.id;
            criterion = id_of found.criterion;
            criterion_state = state;
          }))
        ∷ []

  abbrev pub is_acceptance : EpisodeEvidence → Bool
  is_acceptance item =
      is_claim item.kind
      && (is_succeeded item.state && (is_some item.decision_key && is_some item.scope_key))

  abbrev pub is_current : Option (List Text) → EpisodeEvidence → EpisodeEvidence → Bool
  is_current none first repeated = true
  is_current (some ids) first repeated = any (◌==◌ first.id) ids || any (◌==◌ repeated.id) ids

  abbrev pub same_acceptance : EpisodeEvidence → EpisodeEvidence → Bool
  same_acceptance first repeated =
      is_key first.decision_key repeated.decision_key && is_key first.scope_key repeated.scope_key

  abbrev pub key_or : Text → Option Text → Text
  key_or d none = d
  key_or d (some key) = key

  abbrev pub acceptance_of : DetectorInput → EpisodeEvidence → EpisodeEvidence → Derived
  acceptance_of input first repeated =
      typed_episode id_lt stable_id input (codes "repeated-acceptance") outcome_observed
        (first.id ∷ repeated.id ∷ [])
        (repeated_acceptance_of (record {
          first_acceptance = first.id;
          repeated_acceptance = repeated.id;
          scope_key = key_or [] first.scope_key;
        }))

  -- The inner loop, over the later acceptances.
  unfoldable pub repeats_of : DetectorInput → EpisodeEvidence → List EpisodeEvidence → List Derived
  repeats_of input first [] = []
  repeats_of input first (repeated ∷ rest) =
      let later = repeats_of input first rest in
      if is_current input.current_typed_evidence_ids first repeated
        && same_acceptance first repeated
      then acceptance_of input first repeated ∷ later
      else later

  unfoldable pub acceptances_of : DetectorInput → List EpisodeEvidence → List Derived
  acceptances_of input [] = []
  acceptances_of input (first ∷ rest) = repeats_of input first rest ++ acceptances_of input rest

  abbrev pub each : (EpisodeEvidence → List Derived) → List EpisodeEvidence → List Derived
  each derive [] = []
  each derive (item ∷ items) = derive item ++ each derive items

  -- What is derived from the evidence in the order of its ids.
  unfoldable pub derive_all : DetectorInput → List EpisodeEvidence → List Derived
  derive_all input evidence =
      let decisions = filter (λ item. is_decision item.kind) evidence in
      each (corrections_of id_lt stable_id input evidence decisions) decisions
      ++ (each (gaps_of input evidence)
            (filter (λ item. is_transition item.kind && is_closed item.state) evidence)
          ++ acceptances_of input (filter is_acceptance evidence))

  module _ (contains_credential : Text → Bool) where
    unfoldable pub create_all : List EpisodeEvidence → Result LearningError (List EpisodeEvidence)
    create_all [] = ok []
    create_all (item ∷ items) = do
      first ← create_episode_evidence contains_credential item
      rest ← create_all items
      ok (first ∷ rest)

    -- The statement of a finding always passes its check.
    unfoldable pub check_derived : List Derived → Result LearningError (Unit {0})
    check_derived [] = ok tt
    check_derived (episode value ∷ rest) = do
      created ← create_typed_episode value
      check_derived rest
    check_derived (finding value ∷ rest) = do
      assert_identifier value.id
      freeze_identifiers value.evidence_event_ids
      check_derived rest

    unfoldable pub typed_episodes : DetectorInput → Result LearningError (List Derived)
    typed_episodes input = do
      created ← create_all input.episode_evidence
      let derived = derive_all input (sort evidence_before created)
      check_derived derived
      ok derived

    -- Opens all that the derivation computes by.
    unfoldable pub typed_run : Unit {0}
    unfolding typed_episodes create_all create_episode_evidence assert_evidence_identifier
        freeze_evidence_identifiers check_identities assert_identifier derive_all corrections_of
        correct correct_all get_all by_evidence_id gaps_of gap_evidence acceptances_of repeats_of
        check_derived create_typed_episode create_operational_episode freeze_identifiers
        check_detail assert_references assert_text
    typed_run = tt
