-- ===== src/Normalize.antt =====
-- The one shape of a node, backend/src/iterations/normalize-node.ts.
pub mod Coerce
pub mod Nodes
pub mod Shapes
pub mod Tests
