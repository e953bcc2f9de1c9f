-- ===== src/Resilience.antt =====
-- Calls of services that may fail, backend/src/common/resilience/retry.ts.
pub mod Retry
pub mod Attempts
pub mod Breaker
pub mod Trips
pub mod Tests
