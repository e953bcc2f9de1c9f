-- ===== src/Machines.antt =====
-- Workflows and their versions, backend/src/machines.
pub mod Versions
pub mod Frozen
pub mod Heads
pub mod Updates
pub mod Histories
pub mod Tests
