-- ===== src/Domain/Validation/Laws.antt =====
-- What an import that is accepted guarantees: unique identifiers, no dangling reference, and a
-- time order.
use agent_experience_agentic.Common.{
  ℕ, Text, List, [], true, false, Option, none, ◌≡◌, ◌≢◌, All, Memᴰ, IsDistinct,
}
use agent_experience_agentic.Domain.Types.{Evidence, KnowledgeEntry, contradicts}
use agent_experience_agentic.Domain.Validation.{
  Session, Event, ExperienceImport, event_ids, observation_ids, cluster_ids, candidate_ids,
  knowledge_ids, all_ids, is_before, valid_session_lifetime, ends_before,
}

-- A reference by several ids: there is one, and each is listed.
abbrev pub Refers : List Text → List Text → Type 0
Refers ids listed = (ids ≢ []) × All (λ id. Memᴰ id listed) ids

-- Evidence with the id that is for the candidate of the entry.
abbrev pub Supports : List Evidence → KnowledgeEntry → Text → Type 0
Supports evidence entry id =
    (item : Evidence) × Memᴰ item evidence
    × (item.id ≡ id)
    × (item.candidate_id ≡ entry.candidate_id)

module _ (parse_date : Text → Option ℕ) (to_iso : ℕ → Text) where
  -- The event belongs to a session of the import and occurs within its lifetime.
  abbrev pub Within : List Session → Event → Type 0
  Within sessions event =
      (s : Session) × Memᴰ s sessions
      × (s.id ≡ event.session_id)
      × (is_before parse_date to_iso event.occurred_at s.started_at ≡ false)
      × (ends_before parse_date to_iso s.ended_at event.occurred_at ≡ false)

  -- What the records of an accepted import are to each other.
  pub record IsSound (r : ExperienceImport) : Type 0 where
    pub distinct : All IsDistinct (all_ids r)
    pub lifetimes : All (λ s. valid_session_lifetime parse_date to_iso s ≡ true) r.sessions
    pub events : All (Within r.sessions) r.events
    pub observations : All (λ o. Refers o.event_ids (event_ids r)) r.observations
    pub clusters : All (λ c. Refers c.observation_ids (observation_ids r)) r.clusters
    pub candidates : All (λ c. Memᴰ c.cluster_id (cluster_ids r)) r.candidates
    pub evidence : All (λ e. Memᴰ e.candidate_id (candidate_ids r)) r.evidence
    pub contradictions : All (λ e. e.polarity ≡ contradicts → e.revalidates_to ≡ none) r.evidence
    pub knowledge : All (λ k. Memᴰ k.candidate_id (candidate_ids r)) r.knowledge
    pub supported :
        All (λ k. (k.evidence_ids ≢ []) × All (Supports r.evidence k) k.evidence_ids) r.knowledge
    pub metadata : All (λ id. Memᴰ id (knowledge_ids r)) r.metadata_ids
