-- ===== src/Governance.antt =====
-- Sensitive operations and who must agree to them, backend/src/governance.
pub mod Approvals
pub mod TwoPersons
pub mod Tests
