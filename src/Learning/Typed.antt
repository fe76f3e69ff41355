-- ===== src/Learning/Typed.antt =====
-- typedEpisodes of src/learning/detectors.ts: the corrections, verification gaps and repeated
-- acceptances that typed evidence supports. `stable_id` is the hash of its parts, and the order by
-- id, that of localeCompare, is `id_lt`. One list holds the derived episodes and findings, a
-- finding's statement is the kind of evidence it misses. A derived item is checked when all are derived, where the
-- source checks each as it derives it; both throw a TypeError at the first that is invalid.
pub mod Gaps
pub mod Lookup
pub mod Support
pub mod Grounded
use agent_experience_agentic.Common.{
  ℕ, suc, Text, codes, ◌==◌, List, [], ◌∷◌, ◌++◌, Bool, true, false, not, ◌&&◌, ◌||◌, if◌then◌else◌,
  Option, none, some, is_some, any, all, filter, find, leb, ltb, sort,
}
use agent_experience_agentic.Learning.Episodes.{
  EpisodeEvidence, EpisodeEvidenceKind, tool_request, tool_result, task_verification, agent_claim,
  user_instruction, task_transition, EpisodeEvidenceState, succeeded, failed, closed, observed,
  EpisodeState, unresolved, outcome_observed, OperationalEpisode, TypedEpisode, EpisodeDetail,
  correction, verification_gap, repeated_acceptance_of, CriterionState, met, unmet, unknown,
  typed_detector_version, references_of, listed,
}

pub record DetectorInput : Type 0 where
  pub repository_id : Text
  pub session_id : Text
  pub episode_evidence : List EpisodeEvidence
  pub current_typed_evidence_ids : Option (List Text)

pub data Missing : Type 0 where
  compatible_scope_evidence linked_decision_evidence : Missing

abbrev pub missing_text : Missing → Text
missing_text compatible_scope_evidence = codes "compatible-scope-evidence"
missing_text linked_decision_evidence = codes "linked-decision-evidence"

pub record InsufficientFinding : Type 0 where
  pub id : Text
  pub missing : Missing
  pub evidence_event_ids : List Text

pub data Derived : Type 0 where
  episode : TypedEpisode → Derived
  finding : InsufficientFinding → Derived

abbrev pub is_decision : EpisodeEvidenceKind → Bool
is_decision tool_request = true
is_decision agent_claim = true
is_decision user_instruction = true
is_decision _ = false

abbrev pub is_request : EpisodeEvidenceKind → Bool
is_request tool_request = true
is_request _ = false

abbrev pub is_result : EpisodeEvidenceKind → Bool
is_result tool_result = true
is_result _ = false

abbrev pub is_succeeded : EpisodeEvidenceState → Bool
is_succeeded succeeded = true
is_succeeded _ = false

abbrev pub is_claim : EpisodeEvidenceKind → Bool
is_claim agent_claim = true
is_claim _ = false

abbrev pub is_verification : EpisodeEvidenceKind → Bool
is_verification task_verification = true
is_verification _ = false

abbrev pub is_transition : EpisodeEvidenceKind → Bool
is_transition task_transition = true
is_transition _ = false

abbrev pub is_closed : EpisodeEvidenceState → Bool
is_closed closed = true
is_closed _ = false

abbrev pub is_key : Option Text → Option Text → Bool
is_key none none = true
is_key none (some _) = false
is_key (some _) none = false
is_key (some a) (some b) = a == b

abbrev pub cites : EpisodeEvidence → Text → Bool
cites item id = any (◌==◌ id) item.evidence_ids

-- `byEvidenceId.get`: the last item with the id.
unfoldable pub by_evidence_id : List EpisodeEvidence → Text → Option EpisodeEvidence
by_evidence_id [] id = none
by_evidence_id (item ∷ items) id = elim (by_evidence_id items id) [
  | some later ↦ some later
  | none ↦ if item.id == id then some item else none
]

unfoldable pub get_all : List EpisodeEvidence → List Text → List EpisodeEvidence
get_all evidence [] = []
get_all evidence (id ∷ ids) = elim (by_evidence_id evidence id) [
  | none ↦ get_all evidence ids
  | some item ↦ item ∷ get_all evidence ids
]

abbrev pub first_of : List EpisodeEvidence → Option EpisodeEvidence
first_of [] = none
first_of (item ∷ _) = some item

abbrev pub id_of : Option EpisodeEvidence → Option Text
id_of none = none
id_of (some item) = some item.id

abbrev pub criterion_state_of : Option EpisodeEvidence → CriterionState
criterion_state_of none = unknown
criterion_state_of (some item) = elim item.state [
  | failed ↦ unmet
  | succeeded ↦ met
  | observed ↦ unknown
  | closed ↦ unknown
]

abbrev pub is_met : CriterionState → Bool
is_met met = true
is_met _ = false

abbrev pub priority : EpisodeEvidenceState → ℕ
priority succeeded = 0
priority failed = 1
priority observed = 2
priority closed = 2

module _ (id_lt : Text → Text → Bool) (stable_id : List Text → Text) where
  -- The fields that every typed episode has.
  abbrev pub typed_episode :
      DetectorInput → Text → EpisodeState → List Text → EpisodeDetail → Derived
  typed_episode input name state ids detail = episode (record {
    base = record {
      id = stable_id (
          codes "episode"
          ∷ input.repository_id
          ∷ input.session_id
          ∷ typed_detector_version
          ∷ name
          ∷ ids);
      repository_id = some input.repository_id;
      session_id = input.session_id;
      detector = typed_detector_version;
      state = state;
      evidence_event_ids = ids;
      attempted_operation = none;
      changed_operation = none;
      confirming_event_id = none;
      hypothesis = none;
    };
    detail = detail;
  })

  abbrev pub is_original : EpisodeEvidence → EpisodeEvidence → Bool
  is_original changed item =
      is_decision item.kind
      && (not (item.id == changed.id) && is_key item.decision_key changed.decision_key)

  abbrev pub other_scope : EpisodeEvidence → EpisodeEvidence → Bool
  other_scope changed item = not (is_key item.scope_key changed.scope_key)

  abbrev pub related_to : List EpisodeEvidence → EpisodeEvidence → List EpisodeEvidence
  related_to evidence changed = filter (λ item. cites item changed.id) evidence

  abbrev pub reasons_of : List EpisodeEvidence → EpisodeEvidence → List EpisodeEvidence
  reasons_of evidence changed =
      filter (λ item. is_some item.reason_class) (related_to evidence changed)

  abbrev pub outcomes_of : List EpisodeEvidence → EpisodeEvidence → List EpisodeEvidence
  outcomes_of evidence changed = filter (λ item. is_result item.kind) (related_to evidence changed)

  abbrev pub lacks_scope : List EpisodeEvidence → (changed original : EpisodeEvidence) → Bool
  lacks_scope evidence changed original =
      not (is_some original.scope_key)
      || (not (is_some changed.scope_key)
          || (other_scope changed original
              || any (other_scope changed)
                  (reasons_of evidence changed ++ outcomes_of evidence changed)))

  abbrev pub insufficient_finding : DetectorInput → List Text → Missing → Derived
  insufficient_finding input ids missing = finding (record {
    id = stable_id (
        codes "finding"
        ∷ input.repository_id
        ∷ input.session_id
        ∷ typed_detector_version
        ∷ codes "insufficient-evidence"
        ∷ missing_text missing
        ∷ ids);
    missing = missing;
    evidence_event_ids = ids;
  })

  abbrev pub corrected :
      DetectorInput → List EpisodeEvidence → (changed original : EpisodeEvidence) → Derived
  corrected input evidence changed original =
      let reason = id_of (first_of (reasons_of evidence changed)) in
      let outcome = id_of (first_of (outcomes_of evidence changed)) in
      typed_episode input (codes "correction")
        (if is_some outcome then outcome_observed else unresolved)
        (original.id ∷ changed.id ∷ (listed reason ++ listed outcome))
        (correction (record {
          original_decision = original.id;
          changed_decision = changed.id;
          reason = reason;
          outcome = outcome;
        }))

  -- The correction of one original decision, or what is missing for it.
  unfoldable pub correct :
      DetectorInput → List EpisodeEvidence → (changed original : EpisodeEvidence) → Derived
  correct input evidence changed original =
      if lacks_scope evidence changed original
      then insufficient_finding input (original.id ∷ changed.id ∷ []) compatible_scope_evidence
      else corrected input evidence changed original

  unfoldable pub correct_all :
      DetectorInput
      → List EpisodeEvidence
      → (changed : EpisodeEvidence) → List EpisodeEvidence
      → List Derived
  correct_all input evidence changed [] = []
  correct_all input evidence changed (original ∷ originals) =
      correct input evidence changed original ∷ correct_all input evidence changed originals

  abbrev pub unlinked : DetectorInput → List EpisodeEvidence → EpisodeEvidence → List Derived
  unlinked input decisions changed =
      if is_request changed.kind
        && (is_succeeded changed.state
            && any
                (λ item.
                  not (item.id == changed.id) && is_key item.decision_key changed.decision_key)
                decisions)
      then insufficient_finding input (changed.id ∷ []) linked_decision_evidence ∷ []
      else []

  -- The body of the loop over the decisions.
  unfoldable pub corrections_of :
      DetectorInput → (evidence decisions : List EpisodeEvidence) → EpisodeEvidence → List Derived
  corrections_of input evidence decisions changed =
      let originals = filter (is_original changed) (get_all evidence changed.evidence_ids) in
      elim originals [
        | [] ↦ unlinked input decisions changed
        | original ∷ rest ↦ correct_all input evidence changed (original ∷ rest)
      ]
