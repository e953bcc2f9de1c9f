-- ===== src/Usage.antt =====
-- Usage policies on exchanged data, backend/src/usage-framework.
pub mod Odrl
pub mod Policies
pub mod Exchange
pub mod Signatures
pub mod Tests
