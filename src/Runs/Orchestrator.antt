-- ===== src/Runs/Orchestrator.antt =====
-- src/agentic_lab/runs/orchestrator.py: how a leased run of each role is carried out.
pub mod Evidence
pub mod Records
pub mod Steps
pub mod Flows
pub mod Quiet
pub mod Soundness
pub mod Completion
