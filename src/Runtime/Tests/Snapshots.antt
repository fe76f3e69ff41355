-- ===== src/Runtime/Tests/Snapshots.antt =====
-- A compilation of a blocking rule and a note, and the snapshot that it gives.
use agent_experience_agentic.Common.{
  text_lt, ℕ, Text, codes, List, [], ◌∷◌, Bool, true, false, ok, Memᴰ, ◌⊎◌, ◌≡◌, refl,
}
use agent_experience_agentic.Domain.Types.{observed}
use agent_experience_agentic.Runtime.Contracts.{context, RuntimeRule}
use agent_experience_agentic.Runtime.Paths.{ascii_lower}
use agent_experience_agentic.Runtime.Override.{is_signature_hash}
use agent_experience_agentic.Runtime.Snapshot.{SnapshotPayload, RuntimeSnapshot, is_context_only}
use agent_experience_agentic.Runtime.Snapshot.Parse.{parse_runtime_snapshot}
use agent_experience_agentic.Runtime.Snapshot.Compile.{
  SnapshotCompilation, compile_run, compile_runtime_snapshot,
}
use agent_experience_agentic.Runtime.Snapshot.Accepted.{
  IsSnapshot, parse_runtime_snapshot-IsSnapshot,
}
use agent_experience_agentic.Runtime.Snapshot.Compiled.{
  parse_runtime_snapshot-compile_runtime_snapshot,
}
use agent_experience_agentic.Runtime.Snapshot.Enforcing.{compile_runtime_snapshot-conflict}
use agent_experience_agentic.Runtime.Tests.Samples.{rule}

abbrev sum : Text
sum = codes "0123456789abcdef0123456789abcdef0123456789abcdef0123456789abcdef"

abbrev checksum : SnapshotPayload → Text
checksum p = sum

abbrev size : RuntimeSnapshot → ℕ
size s = 1000

abbrev dated : Text → Bool
dated s = true

abbrev note : RuntimeRule
note = record rule { id = codes "a-note"; state = observed }

abbrev compilation : SnapshotCompilation
compilation = record {
  repository_id = codes "r1";
  generated_at = codes "2026-01-01T00:00:00.000Z";
  global_rules = [];
  repository_rules = rule ∷ [];
  context_rules = note ∷ [];
}

abbrev stored : List RuntimeRule
stored = record note { effect = context } ∷ rule ∷ []

abbrev snapshot : RuntimeSnapshot
snapshot = record {
  repository_id = codes "r1";
  generated_at = codes "2026-01-01T00:00:00.000Z";
  rules = stored;
  checksum = sum;
}

compiled : compile_runtime_snapshot ascii_lower checksum size dated compilation ≡ ok snapshot
unfolding compile_run text_lt
compiled = refl

sum_hex : is_signature_hash sum ≡ true
unfolding is_signature_hash
sum_hex = refl

parse_runtime_snapshot-compile_runtime_snapshot_example :
    parse_runtime_snapshot ascii_lower checksum size dated snapshot ≡ ok snapshot
parse_runtime_snapshot-compile_runtime_snapshot_example =
    parse_runtime_snapshot-compile_runtime_snapshot ascii_lower checksum size dated (λ p. sum_hex)
      compilation {s = snapshot} compiled

parse_runtime_snapshot-IsSnapshot_example : IsSnapshot ascii_lower checksum size dated snapshot
parse_runtime_snapshot-IsSnapshot_example =
    parse_runtime_snapshot-IsSnapshot ascii_lower checksum size dated snapshot {s = snapshot} (
      parse_runtime_snapshot-compile_runtime_snapshot ascii_lower checksum size dated (λ p. sum_hex)
        compilation {s = snapshot} compiled)

compile_runtime_snapshot-conflict_example :
    (is_context_only rule ≡ false) × (Memᴰ rule [] ⊎ Memᴰ rule (rule ∷ []))
compile_runtime_snapshot-conflict_example =
    compile_runtime_snapshot-conflict ascii_lower checksum size dated compilation {s = snapshot}
      compiled {r = rule} (Memᴰ.tail (Memᴰ.head refl)) refl
