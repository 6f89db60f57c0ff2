-- ===== src/Image.antt =====
-- The `Image` resource: its types, its reconciler, and the proofs about it.
pub mod Types
pub mod Controller
pub mod Lifecycle
pub mod Conditions
pub mod Liveness
pub mod Rounds
