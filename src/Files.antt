-- ===== src/Files.antt =====
-- Who may read files, backend/src/files.
pub mod Tables
pub mod Requests
pub mod Grants
pub mod Decisions
pub mod Openings
pub mod Readable
pub mod Readers
pub mod Levels
pub mod Examples
pub mod Tests
