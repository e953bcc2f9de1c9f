-- ===== src/Lineage.antt =====
-- Which files were made from which, backend/src/lineage.
pub mod Edges
pub mod Search
pub mod Recorded
pub mod Walks
pub mod Scans
pub mod Distances
pub mod Tests
