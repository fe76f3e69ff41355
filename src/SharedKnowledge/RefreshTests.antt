-- ===== src/SharedKnowledge/RefreshTests.antt =====
-- A trusted document that forbids a command, and a local one.
use agent_experience_agentic.Common.{
  ℕ, Text, codes, text_lt, unique_from, List, [], ◌∷◌, ◌++◌, Bool, true, false, none, some, ok,
  Memᴰ, ◌≡◌, refl,
}
use agent_experience_agentic.Domain.Types.{convention, KnowledgeState, state_eq}
use agent_experience_agentic.Domain.Transitions.{includes}
use agent_experience_agentic.Runtime.Contracts.{RuntimeRule, action, repository, conflict, context}
use agent_experience_agentic.Runtime.Paths.{ascii_lower}
use agent_experience_agentic.Runtime.Override.{is_hex_digit, is_alphanumeric}
use agent_experience_agentic.Runtime.Snapshot.{SnapshotPayload, RuntimeSnapshot}
use agent_experience_agentic.SharedKnowledge.Schema.{RuntimeDirective}
use agent_experience_agentic.SharedKnowledge.Promotion.{
  SharedKnowledgeDocument, code_tool_confirmed,
}
use agent_experience_agentic.SharedKnowledge.Refresh.{
  RefreshInput, IsTrustedSource, refresh_snapshot, refresh_run, refresh_snapshot-IsTrustedSource,
}

abbrev directive : RuntimeDirective
directive = record {
  signature = action (record {
    tool = codes "npm";
    action = codes "install";
    arguments = none;
    path = some (codes "/repo/a");
  });
  effect = conflict;
}

abbrev forbidden : SharedKnowledgeDocument
forbidden = record {
  identity = codes "no-npm";
  kind = convention;
  state = KnowledgeState.verified;
  instruction_origin = code_tool_confirmed;
  approval = none;
  evidence = none;
  activation = none;
  merged_provenance = none;
  repository_scope = codes "repository:r1";
  applicability = record { paths = []; tags = []; tools = codes "npm" ∷ [] };
  runtime_directive = some directive;
}

abbrev note : SharedKnowledgeDocument
note = record forbidden { identity = codes "a-note" }

abbrev commit : Text
commit = codes "0123456789abcdef0123456789abcdef01234567"

abbrev input : RefreshInput
input = record {
  repository_id = codes "r1";
  generated_at = codes "2026-01-01T00:00:00.000Z";
  resolved = some commit;
  trusted = forbidden ∷ [];
  own = forbidden ∷ note ∷ [];
}

abbrev rule : RuntimeRule
rule = record {
  id = codes "shared:no-npm";
  state = KnowledgeState.verified;
  authoritative = true;
  effect = conflict;
  signature = directive.signature;
  applicability = record {
    scope = repository (codes "r1");
    tool = some (codes "npm");
    path = none;
    tags = none;
  };
  reference = record {
    knowledge_id = codes "no-npm";
    evidence_ids = [];
    source = some (codes "trusted-ref:" ++ commit);
  };
}

abbrev safe_arguments : List Text → Text → Text → Bool
safe_arguments xs tool act = true

abbrev safe : RuntimeDirective → Bool
safe d = true

abbrev durable : Text → Bool
durable t = true

abbrev checksum : SnapshotPayload → Text
checksum p = codes "0123456789abcdef0123456789abcdef0123456789abcdef0123456789abcdef"

abbrev size : RuntimeSnapshot → ℕ
size s = 1000

abbrev note_rule : RuntimeRule
note_rule = record rule {
  id = codes "shared:a-note";
  authoritative = false;
  effect = context;
  reference = record {
    knowledge_id = codes "a-note";
    evidence_ids = [];
    source = some (codes "working-tree");
  };
}

abbrev snapshot : RuntimeSnapshot
snapshot = record {
  repository_id = codes "r1";
  generated_at = codes "2026-01-01T00:00:00.000Z";
  rules = note_rule ∷ rule ∷ [];
  checksum = codes "0123456789abcdef0123456789abcdef0123456789abcdef0123456789abcdef";
}

refreshed :
    refresh_snapshot ascii_lower safe_arguments safe durable checksum size durable input
    ≡ ok snapshot
unfolding refresh_run text_lt includes state_eq is_hex_digit is_alphanumeric unique_from
refreshed = refl

refresh_snapshot-IsTrustedSource_example : IsTrustedSource input rule
refresh_snapshot-IsTrustedSource_example =
    refresh_snapshot-IsTrustedSource ascii_lower safe_arguments safe durable checksum size durable
      input {s = snapshot} refreshed {r = rule} (Memᴰ.tail (Memᴰ.head refl)) refl
