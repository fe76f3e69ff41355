-- ===== src/Learning/Episodes.antt =====
-- src/learning/contracts.ts and createTypedEpisode of src/learning/detectors.ts: the evidence and the
-- episodes of operational learning, on typed values. `contains_credential` is a parameter.
pub mod Laws
use agent_experience_agentic.Common.{
  ℕ, suc, Text, codes, ◌==◌, List, [], ◌∷◌, ◌++◌, Bool, true, false, not, ◌&&◌, ◌||◌, Option, none,
  some, is_some, Result, ok, err, ◌>>=◌, ◌>>◌, guard, all, any, leb, length, nat_eq, trim,
}
use agent_experience_agentic.Runtime.Override.{is_alphanumeric, between}

pub data LearningError : Type 0 where
  invalid_identifier invalid_text invalid_list duplicate_identity unexpected_detector_version
        invalid_detector invalid_reference same_evidence invalid_criterion :
      LearningError

pub data EpisodeState : Type 0 where
  unresolved outcome_observed solution_supported : EpisodeState

pub data EpisodeEvidenceKind : Type 0 where
  tool_request tool_result task_verification agent_claim user_instruction task_transition
        instruction_context analyzer_inference :
      EpisodeEvidenceKind

pub data EpisodeEvidenceState : Type 0 where
  observed succeeded failed closed : EpisodeEvidenceState

pub data EvidenceOrigin : Type 0 where
  source_observed user_declared agent_claimed analyzer_inferred : EvidenceOrigin

pub data EpisodeEvidenceReasonClass : Type 0 where
  failure instruction superseded verification : EpisodeEvidenceReasonClass

pub record EpisodeEvidence : Type 0 where
  pub id : Text
  pub kind : EpisodeEvidenceKind
  pub state : EpisodeEvidenceState
  pub origin : Option EvidenceOrigin
  pub decision_key : Option Text
  pub scope_key : Option Text
  pub reason_class : Option EpisodeEvidenceReasonClass
  pub detector_version : Option Text
  pub evidence_ids : List Text

pub record OperationalEpisode : Type 0 where
  pub id : Text
  pub repository_id : Option Text
  pub session_id : Text
  pub detector : Text
  pub state : EpisodeState
  pub evidence_event_ids : List Text
  pub attempted_operation : Option Text
  pub changed_operation : Option Text
  pub confirming_event_id : Option Text
  pub hypothesis : Option Text

pub data CandidateKind : Type 0 where
  convention successful_workflow : CandidateKind

pub record LearningCandidate : Type 0 where
  pub id : Text
  pub episode_id : Text
  pub kind : CandidateKind
  pub statement : Text
  pub conditions : List Text
  pub procedure : List Text
  pub evidence_event_ids : List Text
  pub invalidation_conditions : List Text

pub record Correction : Type 0 where
  pub original_decision : Text
  pub changed_decision : Text
  pub reason : Option Text
  pub outcome : Option Text

pub data CriterionState : Type 0 where
  met unmet unknown : CriterionState

pub record VerificationGap : Type 0 where
  pub implementation : Option Text
  pub check_execution : Option Text
  pub check_result : Option Text
  pub closure : Text
  pub criterion : Option Text
  pub criterion_state : CriterionState

pub record RepeatedAcceptance : Type 0 where
  pub first_acceptance : Text
  pub repeated_acceptance : Text
  pub scope_key : Text

-- The fields of the three kinds beyond those of an episode.
pub data EpisodeDetail : Type 0 where
  correction : Correction → EpisodeDetail
  verification_gap : VerificationGap → EpisodeDetail
  repeated_acceptance_of : RepeatedAcceptance → EpisodeDetail

pub record TypedEpisode : Type 0 where
  pub base : OperationalEpisode
  pub detail : EpisodeDetail

-- `[A-Za-z0-9._:@/-]`.
abbrev pub is_identifier_char : ℕ → Bool
is_identifier_char c =
    is_alphanumeric c
    || nat_eq c 46
    || nat_eq c 95
    || nat_eq c 58
    || nat_eq c 64
    || nat_eq c 47
    || nat_eq c 45

unfoldable pub assert_identifier : Text → Result LearningError (Unit {0})
assert_identifier value =
    guard (leb 1 (length value) && (leb (length value) 512 && all is_identifier_char value))
      invalid_identifier

-- `[a-z0-9-]`.
abbrev pub is_evidence_char : ℕ → Bool
is_evidence_char c = between 97 122 c || between 48 57 c || nat_eq c 45

abbrev pub is_evidence_identifier : Text → Bool
is_evidence_identifier [] = false
is_evidence_identifier (c ∷ rest) =
    between 97 122 c && (all is_evidence_char rest && leb (length rest) 127)

abbrev pub optional :
    (Text → Result LearningError (Unit {0})) → Option Text → Result LearningError (Unit {0})
optional check none = ok tt
optional check (some value) = check value

unfoldable pub assert_text : Text → Result LearningError (Unit {0})
assert_text value =
    guard (trim value == value && (leb 1 (length value) && leb (length value) 2048)) invalid_text

-- The loop of freezeIdentifiers and freezeEvidenceIdentifiers, with the identities seen.
unfoldable pub check_identities :
    (Text → Result LearningError (Unit {0}))
    → List Text
    → List Text
    → Result LearningError (Unit {0})
check_identities check seen [] = ok tt
check_identities check seen (value ∷ values) = do
  check value
  guard (not (any (◌==◌ value) seen)) duplicate_identity
  check_identities check (value ∷ seen) values

abbrev pub has_items : ℕ → List Text → Bool
has_items most values = leb 1 (length values) && leb (length values) most

unfoldable pub freeze_identifiers : List Text → Result LearningError (Unit {0})
freeze_identifiers values = do
  guard (has_items 128 values) invalid_list
  check_identities assert_identifier [] values

unfoldable pub check_texts : List Text → Result LearningError (Unit {0})
check_texts [] = ok tt
check_texts (value ∷ values) = do assert_text value; check_texts values

unfoldable pub freeze_text : List Text → Result LearningError (Unit {0})
freeze_text values = do guard (has_items 32 values) invalid_list; check_texts values

unfoldable pub create_operational_episode :
    OperationalEpisode → Result LearningError OperationalEpisode
create_operational_episode value = do
  assert_identifier value.id
  optional assert_identifier value.repository_id
  assert_identifier value.session_id
  assert_identifier value.detector
  freeze_identifiers value.evidence_event_ids
  optional assert_text value.attempted_operation
  optional assert_text value.changed_operation
  optional assert_identifier value.confirming_event_id
  optional assert_text value.hypothesis
  ok value

unfoldable pub create_learning_candidate :
    LearningCandidate → Result LearningError LearningCandidate
create_learning_candidate value = do
  assert_identifier value.id
  assert_identifier value.episode_id
  assert_text value.statement
  freeze_text value.conditions
  freeze_text value.procedure
  freeze_identifiers value.evidence_event_ids
  freeze_text value.invalidation_conditions
  ok value

module _ (contains_credential : Text → Bool) where
  unfoldable pub assert_evidence_identifier : Text → Result LearningError (Unit {0})
  assert_evidence_identifier value =
      guard (is_evidence_identifier value && not (contains_credential value)) invalid_identifier

  unfoldable pub freeze_evidence_identifiers : List Text → Result LearningError (Unit {0})
  freeze_evidence_identifiers values = do
    guard (has_items 128 values) invalid_list
    check_identities assert_evidence_identifier [] values

  -- Only an inference of an analyser has a detector version.
  abbrev pub check_detector_version :
      EpisodeEvidenceKind → Option Text → Result LearningError (Unit {0})
  check_detector_version analyzer_inference none = assert_identifier []
  check_detector_version analyzer_inference (some version) = assert_identifier version
  check_detector_version _ version = guard (not (is_some version)) unexpected_detector_version

  unfoldable pub create_episode_evidence : EpisodeEvidence → Result LearningError EpisodeEvidence
  create_episode_evidence value = do
    assert_evidence_identifier value.id
    optional assert_evidence_identifier value.decision_key
    optional assert_evidence_identifier value.scope_key
    check_detector_version value.kind value.detector_version
    freeze_evidence_identifiers value.evidence_ids
    ok value

abbrev pub typed_detector_version : Text
typed_detector_version = codes "m9-typed-evidence@1"

abbrev pub listed : Option Text → List Text
listed none = []
listed (some id) = id ∷ []

unfoldable pub assert_references : List Text → List Text → Result LearningError (Unit {0})
assert_references event_ids [] = ok tt
assert_references event_ids (reference ∷ references) = do
  assert_identifier reference
  guard (any (◌==◌ reference) event_ids) invalid_reference
  assert_references event_ids references

-- The evidence that the fields of a kind refer to, in the order of the source.
abbrev pub references_of : EpisodeDetail → List Text
references_of (correction c) =
    c.original_decision ∷ c.changed_decision ∷ (listed c.reason ++ listed c.outcome)
references_of (verification_gap g) =
    g.closure
    ∷ (listed g.implementation
        ++ (listed g.check_execution ++ (listed g.check_result ++ listed g.criterion)))
references_of (repeated_acceptance_of a) = a.first_acceptance ∷ a.repeated_acceptance ∷ []

abbrev pub is_unknown : CriterionState → Bool
is_unknown unknown = true
is_unknown met = false
is_unknown unmet = false

unfoldable pub check_detail : List Text → EpisodeDetail → Result LearningError (Unit {0})
check_detail event_ids (correction c) = do
  assert_references event_ids (references_of (correction c))
  guard (not (c.original_decision == c.changed_decision)) same_evidence
check_detail event_ids (verification_gap g) = do
  guard (is_unknown g.criterion_state || is_some g.criterion) invalid_criterion
  assert_references event_ids (references_of (verification_gap g))
check_detail event_ids (repeated_acceptance_of a) = do
  assert_identifier a.scope_key
  assert_references event_ids (references_of (repeated_acceptance_of a))
  guard (not (a.first_acceptance == a.repeated_acceptance)) same_evidence

unfoldable pub create_typed_episode : TypedEpisode → Result LearningError TypedEpisode
create_typed_episode value = do
  base ← create_operational_episode value.base
  guard (base.detector == typed_detector_version) invalid_detector
  check_detail base.evidence_event_ids value.detail
  let typed : TypedEpisode = record { base = base; detail = value.detail }
  ok typed
