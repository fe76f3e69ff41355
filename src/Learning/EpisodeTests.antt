-- ===== src/Learning/EpisodeTests.antt =====
-- A corrected decision, and the evidence of it.
use agent_experience_agentic.Common.{codes, ◌==◌, trim, [], ◌∷◌, none, some, ok, ◌≡◌, refl}
use agent_experience_agentic.Runtime.Override.{is_alphanumeric}
use agent_experience_agentic.Learning.Episodes.{
  OperationalEpisode, TypedEpisode, correction, unresolved, typed_detector_version,
  assert_identifier, assert_text, check_identities, freeze_identifiers, create_operational_episode,
  assert_references, check_detail, create_typed_episode,
}
use agent_experience_agentic.Learning.Episodes.Laws.{
  IsTypedEpisode, create_typed_episode-IsTypedEpisode,
}

abbrev episode : OperationalEpisode
episode = record {
  id = codes "ep-1";
  repository_id = none;
  session_id = codes "s1";
  detector = typed_detector_version;
  state = unresolved;
  evidence_event_ids = codes "e1" ∷ codes "e2" ∷ [];
  attempted_operation = none;
  changed_operation = none;
  confirming_event_id = none;
  hypothesis = some (codes "a guess");
}

abbrev corrected : TypedEpisode
corrected = record {
  base = episode;
  detail = correction (record {
    original_decision = codes "e1";
    changed_decision = codes "e2";
    reason = none;
    outcome = none;
  });
}

created : create_typed_episode corrected ≡ ok corrected
unfolding create_typed_episode create_operational_episode assert_identifier assert_text
    freeze_identifiers check_identities check_detail assert_references is_alphanumeric trim ◌==◌
created = refl

create_typed_episode-IsTypedEpisode_example : (corrected ≡ corrected) × IsTypedEpisode corrected
create_typed_episode-IsTypedEpisode_example =
    create_typed_episode-IsTypedEpisode corrected {r = corrected} created
