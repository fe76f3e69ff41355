-- ===== src/SharedKnowledge.antt =====
-- The knowledge that a repository shares (src/shared-knowledge).
pub mod Schema
pub mod Promotion
pub mod Activation
pub mod RuntimeRules
pub mod Trusted
pub mod Activated
pub mod Refresh
mod Tests
mod RefreshTests
