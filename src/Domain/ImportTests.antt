-- ===== src/Domain/ImportTests.antt =====
-- A small import that is accepted. A moment is one code unit here.
use agent_experience_agentic.Common.{ℕ, Text, codes, [], ◌∷◌, Option, none, some}
use agent_experience_agentic.Domain.Types.{convention, confirms, KnowledgeState}
use agent_experience_agentic.Domain.Validation.{cursor, ExperienceImport}

abbrev parse_date : Text → Option ℕ
parse_date [] = none
parse_date (c ∷ _) = some c

abbrev to_iso : ℕ → Text
to_iso c = c ∷ []

abbrev small : ExperienceImport
small = record {
  sessions =
      record {
        id = codes "s1";
        source = cursor;
        started_at = codes "1";
        ended_at = some (codes "3");
        repository_id = none;
        workspace_id = none;
        user_id = none;
      }
      ∷ [];
  events =
      record {
        id = codes "v1";
        session_id = codes "s1";
        kind = codes "command";
        occurred_at = codes "2";
        tool = none;
        path = none;
        tags = none;
        outcome = none;
      }
      ∷ [];
  observations =
      record { id = codes "o1"; event_ids = codes "v1" ∷ []; statement = codes "seen" } ∷ [];
  clusters = record { id = codes "c1"; observation_ids = codes "o1" ∷ [] } ∷ [];
  candidates =
      record { id = codes "l1"; cluster_id = codes "c1"; kind = convention; statement = codes "x" }
      ∷ [];
  evidence =
      record {
        id = codes "e1";
        candidate_id = codes "l1";
        polarity = confirms;
        summary = codes "y";
        revalidates_to = none;
      }
      ∷ [];
  knowledge =
      record {
        id = codes "k1";
        candidate_id = codes "l1";
        evidence_ids = codes "e1" ∷ [];
        state = KnowledgeState.observed;
        statement = codes "x";
      }
      ∷ [];
  metadata_ids = codes "k1" ∷ [];
}
