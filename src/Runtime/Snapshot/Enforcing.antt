-- ===== src/Runtime/Snapshot/Enforcing.antt =====
-- Which rules of a compiled snapshot can block.
use mathlib.Core.Path.{subst}
use agent_experience_agentic.Common.{
  ℕ, Text, Bool, false, ok, filter, ◌≡◌, arith, All, All-mono, All-self, All-mem, Memᴰ, ◌⊎◌,
  All-append, All-map, All-of_filter, All-sort, Bool-cases, inl, inr, ◌⊎◌,
}
use agent_experience_agentic.Runtime.Contracts.{conflict, RuntimeRule}
use agent_experience_agentic.Runtime.Snapshot.{
  SnapshotPayload, RuntimeSnapshot, is_active, is_context_only, rule_before,
}
use agent_experience_agentic.Runtime.Snapshot.Compile.{
  SnapshotCompilation, is_here, as_context, demote, selected_rules, compile_runtime_snapshot,
}
use agent_experience_agentic.Runtime.Snapshot.Compiled.{compile_runtime_snapshot-IsCompilation}

-- A rule that can block is authoritative and neither observed nor disputed, and one of the two
-- authoritative sources holds it as it is.
unfoldable IsEnforcing : SnapshotCompilation → RuntimeRule → Type 0
IsEnforcing input r =
    r.effect ≡ conflict
    → (is_context_only r ≡ false) × (Memᴰ r input.global_rules ⊎ Memᴰ r input.repository_rules)

-- Before demotion a rule that can block is of an authoritative source.
abbrev IsSourced : SnapshotCompilation → RuntimeRule → Type 0
IsSourced input r = r.effect ≡ conflict → Memᴰ r input.global_rules ⊎ Memᴰ r input.repository_rules

demote-IsEnforcing :
    (input : SnapshotCompilation) (r : RuntimeRule)
    → IsSourced input r
    → IsEnforcing input (demote r)
unfolding demote IsEnforcing is_context_only
demote-IsEnforcing input r h = elim (Bool-cases (is_context_only r)) [
  | inl t ↦ rw t (λ e. absurd (ground arith))
  | inr f ↦ rw f (λ e. (f, h e))
]

selected_rules-IsEnforcing :
    (input : SnapshotCompilation) → All (IsEnforcing input) (selected_rules input)
unfolding selected_rules
selected_rules-IsEnforcing input =
    let sourced = IsSourced input in
    let id = input.repository_id in
    let contexts =
      All-map sourced as_context (filter (is_here id) input.context_rules)
        (λ r m e. absurd (ground arith)) (All-self (filter (is_here id) input.context_rules)) in
    let globals = All-mono input.global_rules (λ r m e. inl m) (All-self input.global_rules) in
    let locals =
      All-mono input.repository_rules (λ r m e. inr m) (All-self input.repository_rules) in
    All-map (IsEnforcing input) demote _ (demote-IsEnforcing input) (
      All-of_filter sourced is_active _ (
        All-append sourced _ _ (All-of_filter sourced _ input.global_rules globals) (
          All-append sourced _ _ (All-of_filter sourced _ input.repository_rules locals) contexts)))

module _ (lower : Text → Text) (checksum_payload : SnapshotPayload → Text)
    (byte_size : RuntimeSnapshot → ℕ) (is_iso : Text → Bool) where
  -- A rule of a compiled snapshot with the effect conflict is authoritative and neither observed
  -- nor disputed, and is itself one of the global or the repository rules of the input.
  pub compile_runtime_snapshot-conflict :
      (input : SnapshotCompilation) {s : RuntimeSnapshot}
      → compile_runtime_snapshot lower checksum_payload byte_size is_iso input ≡ ok s
      → {r : RuntimeRule} → Memᴰ r s.rules
      → r.effect ≡ conflict
      → (is_context_only r ≡ false) × (Memᴰ r input.global_rules ⊎ Memᴰ r input.repository_rules)
  unfolding IsEnforcing
  compile_runtime_snapshot-conflict input {s} h m e =
      let (run, _) =
        compile_runtime_snapshot-IsCompilation lower checksum_payload byte_size is_iso input h in
      let rules : All (IsEnforcing input) s.rules =
        subst (λ v. All (IsEnforcing input) v.rules) run.made
          (All-sort rule_before _ (selected_rules input) (selected_rules-IsEnforcing input)) in
      All-mem (IsEnforcing input) s.rules m rules e
