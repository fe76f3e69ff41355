-- ===== src/Runtime/Tests.antt =====
-- The theorems of the runtime at concrete inputs.
mod Samples
mod Breaker
mod Resolutions
mod Paths
mod Matches
mod Decisions
mod Overrides
mod Snapshots
