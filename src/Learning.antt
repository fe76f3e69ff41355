-- ===== src/Learning.antt =====
-- The background analysis (src/learning): the settings of its workers, the watchdog of one worker
-- and the coordinator that starts them.
pub mod Settings
pub mod Watchdog
pub mod Coordinator
pub mod Episodes
pub mod Typed
mod Tests
mod CoordinatorTests
mod EpisodeTests
mod TypedTests
