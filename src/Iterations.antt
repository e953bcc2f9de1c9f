-- ===== src/Iterations.antt =====
-- Running iterations, backend/src/iterations/iterations.service.ts.
pub mod Status
pub mod Healing
pub mod Nodes
pub mod Claims
pub mod Starts
pub mod Successors
pub mod Reach
pub mod Forks
pub mod Inherited
pub mod Forked
pub mod Restarts
pub mod Creation
pub mod Beginnings
pub mod Files
pub mod Listings
pub mod Shown
pub mod Attached
pub mod Examples
pub mod Tests
