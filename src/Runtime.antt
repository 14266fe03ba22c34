-- ===== src/Runtime.antt =====
-- backend/app/runtime: what runs an agent in a sandbox.
pub mod RunTokens
pub mod ScriptLifecycle
pub mod Lifecycle
pub mod Coordinator
pub mod TeamGraph
pub mod CheckpointStore
pub mod RunnerGateway
pub mod DeadlineCommit
pub mod RunStates
