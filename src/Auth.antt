-- ===== src/Auth.antt =====
-- Logging in and staying logged in, backend/src/auth/auth.service.ts.
pub mod Sessions
pub mod Lockout
pub mod Rotation
pub mod Tests
