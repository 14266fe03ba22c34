-- ===== src/Tests.antt =====
-- Runs of the model on small databases, and the properties at concrete inputs.
mod Data
mod Lifecycle
mod Tokens
mod Approvals
mod Coordinator
mod Identity
mod TeamGraph
mod CheckpointStore
mod RunnerGateway
mod Tools
mod Summary
mod RunStates
