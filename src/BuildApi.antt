-- ===== src/BuildApi.antt =====
-- The build API server of internal/buildapi/server.go: its types, its client, its handlers and the
-- proofs about them.
pub mod Types
pub mod Client
pub mod Objects
pub mod Create
pub mod Queries
pub mod Uploads
pub mod Files
pub mod Artifacts
pub mod Sse
pub mod Logs
pub mod SseLogs
pub mod Router
pub mod Lines
pub mod Events
pub mod Framing
pub mod Auth
pub mod Requests
pub mod Server
pub mod Described
pub mod Stored
pub mod Inputs
pub mod Promises
pub mod Accepted
pub mod Template
pub mod Waiting
pub mod Answering
pub mod Inside
pub mod Handover
pub mod Names
pub mod Complete
