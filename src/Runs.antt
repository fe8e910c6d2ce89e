-- ===== src/Runs.antt =====
-- src/agentic_lab/runs/: the life of a run in the database.
pub mod Service
pub mod Leases
pub mod Artifacts
pub mod CiPush
pub mod Remote
pub mod Orchestrator
pub mod Worker
