-- ===== src/Lib.antt =====
-- Agent experience layer: verification library.
--
-- The program records what coding agents experience and turns it into knowledge that a runtime gate
-- applies to later operations. A knowledge entry lives in the lifecycle of src/domain; verified and
-- confirmed entries become rules of a snapshot; for each operation of an agent, src/runtime finds the
-- rules that match (matcher.ts), asks the policy what each decides under the active profile
-- (policy.ts), and takes the strongest outcome (gate.ts). Where the snapshot comes from is settled by
-- resilience.ts behind a circuit breaker, and a snapshot is made by src/runtime/snapshot.ts, for
-- shared knowledge from the documents that src/shared-knowledge activates; which profile is active by
-- src/config/profile-resolver.ts; a person can override a decision through override.ts. Knowledge is
-- learned from sessions by workers that src/learning/worker.ts coordinates and watches, from episodes
-- that src/learning/detectors.ts derives, and is given back to an agent by src/advice.
--
-- Files and code (paths from the repository's root):
--   Common and its children: texts as UTF-16 code units, the string and array methods that the source
--     calls, results with a thrown error, sets of texts, and a stable insertion sort.
--   Domain.Types, Domain.Transitions: src/domain/types.ts and transitions.ts (canTransition,
--     applyTransition, reconcileImportedKnowledgeLifecycle); Domain.Lifecycle, History, EvidenceIds
--     and Disputes state the step relation and the invariants of replayed evidence.
--   Domain.Validation: src/domain/validation.ts (validateImport from the checks on identifiers on).
--   Config.Settings, Config.Selectors, Config.Resolver: src/config/profile-resolver.ts (resolveSetting,
--     matchSelectors, selectExact, selectWildcard, resolveProfileTarget); the laws are
--     in Config.Candidates, Collected, Precedence and Wildcards.
--   Config.Inheritance: src/config/runtime-profile.ts (the built-in profiles, defineRuntimeProfiles,
--     hasLearningLineage), and Config.Registry for its validateRuntimeProfileRegistry; the laws are in
--     Config.Lineage.
--   Runtime.Contracts: src/runtime/contracts.ts.
--   Runtime.CircuitBreaker: src/runtime/circuit-breaker.ts; the class's fields are a record, and each
--     method is a function from the record, and the clock where it is read, to the record.
--   Runtime.Resilience: src/runtime/resilience.ts (resolve and reset). The store is the record
--     ResilientRuntime; a loader is the result that its call has; the two readings of the clock are
--     arguments, and the diagnostics that are sent are returned.
--   Runtime.Paths, Runtime.Matcher: src/runtime/matcher.ts (canonicalPath, normalizeRuntimePath,
--     canonicalSignature, matchRules). Runtime.Policy: src/runtime/policy.ts.
--   Runtime.Gate: src/runtime/gate.ts and the index of rule-index.ts.
--   Runtime.Override (Grant, Apply, Audit): src/runtime/override.ts; the laws are in Laws, Narrow,
--     RoundTrip and AuditLaws.
--   Runtime.Snapshot (Parse, Compile, Storable): src/runtime/snapshot.ts; the laws are in Accepted,
--     Compiled, Selection and Enforcing.
--   SharedKnowledge.Promotion: evaluatePromotion and promoteKnowledge of
--     src/shared-knowledge/promotion-policy.ts. SharedKnowledge.Schema, Activation and RuntimeRules:
--     the directives of schema.ts, activateGitKnowledge of git-activation.ts and
--     compileActivatedRuntimeRules of runtime-compiler.ts; SharedKnowledge.Refresh composes them the
--     way refreshKnowledgeRuntime of src/application/runtime-service.ts does.
--   Learning.Settings: src/learning/worker-settings.ts. Learning.Watchdog and Learning.Coordinator:
--     runAnalysisWorkerWatchdog and runAnalysisCoordinator of src/learning/worker.ts. A turn holds what
--     the host and the repository answer in one round of the loop, a host holds its turns by number,
--     and a run returns the calls that it makes.
--   Learning.Episodes: src/learning/contracts.ts and createTypedEpisode of detectors.ts.
--     Learning.Typed and Learning.Typed.Gaps: typedEpisodes of src/learning/detectors.ts.
--   Advice.Selection: selectLocalAdvice of src/advice/selection.ts.
--   The modules named Tests, or ending in it, apply the theorems to concrete inputs.
--
-- How the code is read: a thrown error is a value of a result type; Object.freeze and the frozen
-- copies are the values themselves; every loop is structural recursion on the list or text that it
-- walks. The recursive resolution of custom profiles takes fuel, one unit for each definition: the ids
-- under resolution are different ids of definitions, so the fuel is enough. The loops of the two
-- workers have no bound of their own: they run on fuel, one unit for each turn, and the execution
-- limit or the idle timeout in milliseconds, and one, is enough where the clock advances in each turn
-- and, for the coordinator, no call throws and there is no work. Numbers are natural numbers: clock
-- readings, counts and code units are never negative in the code that is modelled.
--
-- Parameters stand for what is not in the repository or not modelled: `lower` is toLowerCase; `digest`
-- and `sign` are SHA-256 of the canonical form of an input and of a signature; `parse_date`, `to_iso`
-- and `is_iso` are the calls of Date; `safe` is assertDurableTextSafe of src/review/sanitizer.ts;
-- `normalize_remote` is normalizeGitRemoteUrl; `lineage`, `built_in` and `registry` in Config.Resolver
-- are the learning lineage, the built-in ids and the profiles of a validated registry. The hash of a
-- snapshot and of an id, the length of JSON text, the order of localeCompare and the test for
-- credentials are parameters as well.
--
-- Not modelled: checks of the shape of untyped JSON, which the types give here; the stores on SQLite
-- and the file system (src/storage, src/capture, src/learning/repository.ts, the index files of
-- src/shared-knowledge), the detectors of repairs and conventions, the production hosts of the
-- workers, the reviewers, the benchmarks and the command line.
pub mod Common
pub mod Domain
pub mod Config
pub mod Runtime
pub mod SharedKnowledge
pub mod Learning
pub mod Advice
