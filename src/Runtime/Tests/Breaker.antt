-- ===== src/Runtime/Tests/Breaker.antt =====
-- The circuit breaker that trips after three failures.
