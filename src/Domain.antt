-- ===== src/Domain.antt =====
-- The knowledge domain (src/domain): its types, and the lifecycle of a knowledge entry.
pub mod Types
pub mod Transitions
pub mod Validation
pub mod Lifecycle
pub mod History
pub mod EvidenceIds
pub mod Disputes
mod Tests
mod ImportTests
