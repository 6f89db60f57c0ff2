-- ===== src/Kube.antt =====
-- The Kubernetes API as the program uses it: names and metadata, and clients of one kind of object.
mod Names
mod Objects
pub use Names.*
pub use Objects.*
