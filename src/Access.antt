-- ===== src/Access.antt =====
-- Who may call what, backend/src/auth.
pub mod Roles
pub mod Scope
pub mod Assigned
pub mod Tests
