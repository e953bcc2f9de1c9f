-- ===== src/Lib.antt =====
-- A model of the core of the digital-thread platform, and what holds of it.
--
-- The platform runs workflows of manufacturing partners. A workflow is a graph of nodes, frozen in a
-- version when an iteration starts; the iterations service (backend/src/iterations) starts
-- iterations, lets partners claim and complete nodes and repairs what went wrong, and the workflow
-- engine (workflow-engine.service.ts) moves an iteration on when a node is completed: it opens
-- tasks, settles gateways and skips what a closed gateway cuts off. The machines service keeps the
-- versions that iterations are pinned to; guards and grants say who may act on a node or read a
-- file, and sensitive operations take two approvers.
--
-- Which file models what, paths being those of the repository:
--   Shared, Shared/*      Boolean tests, list functions, JavaScript objects as association lists
--   Json                  the values of `JSON.parse`
--   Flow                  backend/src/iterations/types/flow-node.ts, the node model
--   Normalize/Coerce, Nodes, Shapes
--                         backend/src/iterations/normalize-node.ts, and what normalised nodes are like
--   Engine/Store          the state of one iteration (`Run`): its row, its NodeRuntimeState rows, its
--                         timeline and the calls made of the broker, the lineage and the manifest
--                         services; the monad `M` of operations that read and write it and may throw
--   Engine/Status, Inputs, Gateway, Completion, Activation
--                         backend/src/iterations/workflow-engine.service.ts, operation by operation
--   Engine/Rows, Paths, Moves, Outcome, Update, Cascade, Policy, Settle, Advance
--                         lemmas on the rows, and what advancing a workflow may do
--   Engine/Gates, Bindings, Errors
--                         gateways on statuses, resolved inputs, predecessors in ERROR
--   Engine/Liveness, Outputs
--                         tasks that are opened, files from an output to the inputs bound to it
--   Iterations/Status, Nodes, Starts, Successors, Forks, Creation,
--   Iterations/Files, Listings
--                         backend/src/iterations/iterations.service.ts
--   Iterations/Healing, Claims, Reach, Inherited, Forked, Restarts, Beginnings, Shown,
--   Iterations/Attached
--                         reconciled statuses, claims and completions, the reachable nodes, forks,
--                         new iterations, the files that a node shows
--   Machines/Versions     backend/src/machines/machines.service.ts over one workflow (`Workflow`): its
--                         row, its versions, and the versions that iterations are pinned to
--   Machines/Frozen, Heads, Updates, Histories
--                         versions in use, the row that mirrors the highest version, sequences of
--                         saves and starts
--   Files/Tables, Requests, Grants, Decisions, Openings
--                         backend/src/files/file-access-requests.service.ts and `hasActiveGrant` of
--                         files.service.ts, over tables of files, products and requests (`Desk`);
--                         `slice(0, 1000)` is the parameter `clip`, since JavaScript counts UTF-16 units
--   Files/Readable, Readers, Levels
--                         `canRead`, `assertReadable`, `assertWritable` and
--                         `resolveDefaultClassification` of backend/src/files/files.service.ts
--   Usage/Odrl, Policies  backend/src/usage-framework/odrl.validator.ts, and what policies permit
--   Usage/Exchange, Signatures
--                         backend/src/usage-framework/usage-framework.service.ts over the tables of
--                         exports and imports (`Office`), and what it takes to accept an import
--   Lineage/Edges, Search
--                         backend/src/lineage/lineage.service.ts over the tables of files and edges
--                         (`Archive`)
--   Lineage/Recorded, Walks, Scans, Distances
--                         edges that are recorded twice, and how far a search goes
--   Auth/Sessions, Rotation, Lockout
--                         backend/src/auth/auth.service.ts over the tables of users, tokens and logins
--                         (`Accounts`), tokens that are used twice, wrong passwords in a row
--   Access/Roles, Scope, Assigned
--                         backend/src/auth/roles.ts, guards/roles.guard.ts and
--                         guards/partner-scope.guard.ts, and who may act on a node
--   Governance/Approvals, TwoPersons
--                         backend/src/governance/approvals.service.ts, and its two-approver rule
--   Resilience/Retry, Breaker, Attempts, Trips
--                         backend/src/common/resilience/retry.ts: `retry` and `CircuitBreaker`, the
--                         calls and waits of the one, the states of the other
--   Engine/Tests, Engine/Examples, Iterations/Tests, Iterations/Examples, Governance/Tests,
--   Machines/Tests, Files/Tests, Files/Examples, Access/Tests, Normalize/Tests, Resilience/Tests,
--   Usage/Tests, Lineage/Tests, Auth/Tests
--                         runs on small examples
--
-- How the code is modelled. A service that awaits the database is a function from what it keeps to a
-- result and the new state. What the engine and the iterations service wrote before they threw stays
-- written, since they open no transaction; a transaction of machines.service.ts that throws writes
-- nothing. A JSON column is null, a text that does not parse, or a parsed value. A row is found by its
-- key, which the schema makes unique. `new Date()` reads a clock that stands still inside one
-- operation. Operations run one after another: two requests that interleave at an `await` are not
-- modelled. Optional values are `Option`; `??` is `get_or` or `or_else`. In Normalize, `String(...)`,
-- `toLowerCase`, the test for blank texts and the catalogue of node types are parameters. `findOne`
-- reconciles by the ids in the stored JSON (`reconcile_iteration_status`); where it follows another
-- operation (`find_one`), the stored ids are taken to be texts. `tryActivate` normalises its target,
-- which is normalised already, once more; that is taken to change nothing, which fails only for the
-- kind of a TASK (see normalize-node.ts, `inferKind`).
--
-- Fuel. The recursion of `tryActivate` through gateways gets one more than the number of IDLE rows,
-- since a gateway leaves IDLE before the recursive calls. The loops of `cascadeSkip` and
-- `collectSuccessors` get the number of edges, and one more for the start node, since each node's
-- out-edges are queued at most once. The search through the lineage gets one more than the number of
-- edges, since each edge is followed at most once.
--
-- Not modelled: the frontend, controllers and data transfer objects, which only pass values on;
-- database, broker and storage clients; the exporters and importers of the standards; and the other
-- services of the backend, among them notifications, provenance, change management and retention.
pub mod Shared
pub mod Json
pub mod Flow
pub mod Engine
pub mod Iterations
pub mod Access
pub mod Resilience
pub mod Governance
pub mod Machines
pub mod Files
pub mod Normalize
pub mod Usage
pub mod Lineage
pub mod Auth
