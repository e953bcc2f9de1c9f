-- ===== src/Engine.antt =====
-- The workflow engine, backend/src/iterations/workflow-engine.service.ts.
pub mod Store
pub mod Status
pub mod Inputs
pub mod Gateway
pub mod Completion
pub mod Activation
pub mod Rows
pub mod Paths
pub mod Moves
pub mod Outcome
pub mod Update
pub mod Cascade
pub mod Policy
pub mod Settle
pub mod Advance
pub mod Gates
pub mod Errors
pub mod Bindings
pub mod Outputs
pub mod Liveness
pub mod Tests
pub mod Examples
