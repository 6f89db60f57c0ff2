-- ===== src/OperatorConfig.antt =====
-- The `OperatorConfig` resource: its types, the objects that its reconciler manages, the
-- reconciler, and the proofs about it.
pub mod Types
pub mod Objects
pub mod Deploy
pub mod Cleanup
pub mod Controller
pub mod Ownership
pub mod Deletion
pub mod Status
pub mod Presence
pub mod Steps
pub mod Deployed
pub mod DeployedTasks
