-- ===== src/Advice.antt =====
-- Advice from verified knowledge (src/advice).
pub mod Selection
mod Tests
