-- ===== src/Runtime.antt =====
-- The runtime (src/runtime): from an operation and the rules of a repository to a decision.
pub mod Contracts
pub mod CircuitBreaker
pub mod Policy
pub mod Resilience
pub mod Paths
pub mod Matcher
pub mod Gate
pub mod Override
pub mod Snapshot
mod Tests
