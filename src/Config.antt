-- ===== src/Config.antt =====
-- The configuration (src/config): which runtime profile applies to a workspace.
pub mod Settings
pub mod Selectors
pub mod Resolver
pub mod Inheritance
pub mod Lineage
pub mod Registry
pub mod Candidates
pub mod Collected
pub mod Precedence
pub mod Wildcards
mod Tests
