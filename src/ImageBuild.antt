-- ===== src/ImageBuild.antt =====
-- The `ImageBuild` resource: its types, the client and the objects of its reconciler, the
-- reconciler, and the proofs about it.
pub mod Types
pub mod Client
pub mod Storage
pub mod Pods
pub mod TaskRuns
pub mod Progress
pub mod Expiry
pub mod Controller
pub mod Server
pub mod Frame
pub mod Lifecycle
pub mod Kept
pub mod Writes
pub mod Evolution
pub mod Reconcile
pub mod Removal
pub mod Deadline
pub mod FileName
pub mod Outcome
pub mod Adoption
