-- ===== src/Workflow.antt =====
-- src/civitas/workflow: the Parliament workflow and the store of its checkpoints.
pub mod Models
pub mod Store
pub mod Orchestrator
pub mod Samples
pub mod Progress
mod Tests
