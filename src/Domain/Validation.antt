-- ===== src/Domain/Validation.antt =====
-- src/domain/validation.ts: `validateImport` on a value that has the collections and the field
-- types of `ExperienceImport`: the checks on identifiers, lifetimes and references. `Date.parse` of
-- a timestamp is the parameter `parse_date`, counted from the first moment that a date can hold, so
-- that it is never negative; `toISOString` of a moment is `to_iso`.
pub mod Laws
use agent_experience_agentic.Common.{
  ℕ, Text, ◌==◌, List, [], ◌∷◌, Bool, true, false, not, ◌&&◌, ◌||◌, if◌then◌else◌, Option, none,
  some, is_some, Result, ok, err, ◌>>=◌, ◌>>◌, guard, any, all, find, map, leb, ltb, trim, is_empty,
  is_duplicate_free,
}
use agent_experience_agentic.Domain.Types.{Evidence, KnowledgeEntry, LessonKind}
use agent_experience_agentic.Domain.Transitions.{is_contradiction}

pub data AgentSource : Type 0 where
  codex claude_code cursor : AgentSource

pub data EventOutcome : Type 0 where
  passed failed unknown : EventOutcome

pub record Session : Type 0 where
  pub id : Text
  pub source : AgentSource
  pub started_at : Text
  pub ended_at : Option Text
  pub repository_id : Option Text
  pub workspace_id : Option Text
  pub user_id : Option Text

-- `exitStatus` is left out: nothing here reads it.
pub record Event : Type 0 where
  pub id : Text
  pub session_id : Text
  pub kind : Text
  pub occurred_at : Text
  pub tool : Option Text
  pub path : Option Text
  pub tags : Option (List Text)
  pub outcome : Option EventOutcome

pub record Observation : Type 0 where
  pub id : Text
  pub event_ids : List Text
  pub statement : Text

pub record ObservationCluster : Type 0 where
  pub id : Text
  pub observation_ids : List Text

pub record CandidateLesson : Type 0 where
  pub id : Text
  pub cluster_id : Text
  pub kind : LessonKind
  pub statement : Text

-- `knowledgeMetadata` by its keys alone: the checks below read nothing else of it.
pub record ExperienceImport : Type 0 where
  pub sessions : List Session
  pub events : List Event
  pub observations : List Observation
  pub clusters : List ObservationCluster
  pub candidates : List CandidateLesson
  pub evidence : List Evidence
  pub knowledge : List KnowledgeEntry
  pub metadata_ids : List Text

-- The code with its message.
pub data ValidationError : Type 0 where
  identifiers_invalid contradiction_revalidates session_missing lifetime_invalid event_outside
        observation_empty event_missing cluster_empty observation_missing cluster_missing
        evidence_candidate_missing knowledge_candidate_missing knowledge_empty evidence_missing
        evidence_of_other_candidate metadata_missing :
      ValidationError

-- `INVALID_SHAPE`, `MISSING_REFERENCE` and `INVALID_RELATIONSHIP`.
pub data ValidationCode : Type 0 where
  invalid_shape missing_reference invalid_relationship : ValidationCode

unfoldable pub validation_code : ValidationError → ValidationCode
validation_code identifiers_invalid = invalid_shape
validation_code contradiction_revalidates = invalid_shape
validation_code lifetime_invalid = invalid_relationship
validation_code event_outside = invalid_relationship
validation_code observation_empty = invalid_relationship
validation_code cluster_empty = invalid_relationship
validation_code knowledge_empty = invalid_relationship
validation_code evidence_of_other_candidate = invalid_relationship
validation_code _ = missing_reference

-- `identifiers(items).has(id)`, on the ids of the items.
unfoldable pub has : List Text → Text → Bool
has ids id = any (◌==◌ id) ids

unfoldable pub has_empty_or_duplicate_identifiers : List Text → Bool
has_empty_or_duplicate_identifiers ids =
    any (λ id. is_empty (trim id)) ids || not (is_duplicate_free ids)

abbrev pub is_nil {ℓ} : {A : Type ℓ} → List A → Bool
is_nil [] = true
is_nil (_ ∷ _) = false

abbrev pub session_ids : ExperienceImport → List Text
session_ids r = map (λ x. x.id) r.sessions

abbrev pub event_ids : ExperienceImport → List Text
event_ids r = map (λ x. x.id) r.events

abbrev pub observation_ids : ExperienceImport → List Text
observation_ids r = map (λ x. x.id) r.observations

abbrev pub cluster_ids : ExperienceImport → List Text
cluster_ids r = map (λ x. x.id) r.clusters

abbrev pub candidate_ids : ExperienceImport → List Text
candidate_ids r = map (λ x. x.id) r.candidates

abbrev pub evidence_ids : ExperienceImport → List Text
evidence_ids r = map (λ x. x.id) r.evidence

abbrev pub knowledge_ids : ExperienceImport → List Text
knowledge_ids r = map (λ x. x.id) r.knowledge

-- The identifiers of the collections, in the order of `collectionKeys`.
abbrev pub all_ids : ExperienceImport → List (List Text)
all_ids r =
    session_ids r
    ∷ event_ids r
    ∷ observation_ids r
    ∷ cluster_ids r
    ∷ candidate_ids r
    ∷ evidence_ids r
    ∷ knowledge_ids r
    ∷ []

-- `items.some(test)` throws the error.
unfoldable pub refuse_any {ℓ} :
    {A : Type ℓ} → (A → Bool) → List A → ValidationError → Result ValidationError (Unit {0})
refuse_any test items error = guard (not (any test items)) error

-- `sessionsById.get(id)`: of sessions with one id the map keeps the last; ids are unique by then.
unfoldable pub session_by_id : List Session → Text → Option Session
session_by_id sessions id = find (λ s. s.id == id) sessions

-- The candidate of the first evidence with the id is not the entry's.
unfoldable pub supports_other : List Evidence → KnowledgeEntry → Text → Bool
supports_other evidence entry id = elim (find (λ item. item.id == id) evidence) [
  | none ↦ true
  | some item ↦ not (item.candidate_id == entry.candidate_id)
]

module _ (parse_date : Text → Option ℕ) (to_iso : ℕ → Text) where
  unfoldable pub is_canonical_timestamp : Text → Bool
  is_canonical_timestamp value = elim (parse_date value) [
    | none ↦ false
    | some moment ↦ to_iso moment == value
  ]

  -- `Date.parse(a) < Date.parse(b)`, which is false when either is no date.
  unfoldable pub is_before : Text → Text → Bool
  is_before a b = elim (parse_date a) [
    | none ↦ false
    | some m ↦ elim (parse_date b) [ none ↦ false | some n ↦ ltb m n ]
  ]

  -- `Date.parse(a) >= Date.parse(b)`.
  unfoldable pub is_at_or_after : Text → Text → Bool
  is_at_or_after a b = elim (parse_date a) [
    | none ↦ false
    | some m ↦ elim (parse_date b) [ none ↦ false | some n ↦ leb n m ]
  ]

  abbrev pub valid_end : Text → Option Text → Bool
  valid_end started none = true
  valid_end started (some ended) = is_canonical_timestamp ended && is_at_or_after ended started

  unfoldable pub valid_session_lifetime : Session → Bool
  valid_session_lifetime session =
      is_canonical_timestamp session.started_at && valid_end session.started_at session.ended_at

  abbrev pub ends_before : Option Text → Text → Bool
  ends_before none moment = false
  ends_before (some ended) moment = is_before ended moment

  unfoldable pub is_outside_session : List Session → Event → Bool
  is_outside_session sessions event =
      not (is_canonical_timestamp event.occurred_at)
      || elim (session_by_id sessions event.session_id) [
        | none ↦ true
        | some session ↦
            is_before event.occurred_at session.started_at
            || ends_before session.ended_at event.occurred_at
      ]

  -- The checks that follow those of the shape.
  unfoldable pub validate_import : ExperienceImport → Result ValidationError (Unit {0})
  validate_import r = do
    refuse_any has_empty_or_duplicate_identifiers (all_ids r) identifiers_invalid
    refuse_any (λ e. is_contradiction e.polarity && is_some e.revalidates_to) r.evidence
        contradiction_revalidates
    refuse_any (λ e. not (has (session_ids r) e.session_id)) r.events session_missing
    refuse_any (λ s. not (valid_session_lifetime s)) r.sessions lifetime_invalid
    refuse_any (is_outside_session r.sessions) r.events event_outside
    refuse_any (λ o. is_nil o.event_ids) r.observations observation_empty
    refuse_any (λ o. any (λ id. not (has (event_ids r) id)) o.event_ids) r.observations
        event_missing
    refuse_any (λ c. is_nil c.observation_ids) r.clusters cluster_empty
    refuse_any (λ c. any (λ id. not (has (observation_ids r) id)) c.observation_ids) r.clusters
        observation_missing
    refuse_any (λ c. not (has (cluster_ids r) c.cluster_id)) r.candidates cluster_missing
    refuse_any (λ e. not (has (candidate_ids r) e.candidate_id)) r.evidence
        evidence_candidate_missing
    refuse_any (λ k. not (has (candidate_ids r) k.candidate_id)) r.knowledge
        knowledge_candidate_missing
    refuse_any (λ k. is_nil k.evidence_ids) r.knowledge knowledge_empty
    refuse_any (λ k. any (λ id. not (has (evidence_ids r) id)) k.evidence_ids) r.knowledge
        evidence_missing
    refuse_any (λ k. any (supports_other r.evidence k) k.evidence_ids) r.knowledge
        evidence_of_other_candidate
    refuse_any (λ id. not (has (knowledge_ids r) id)) r.metadata_ids metadata_missing
