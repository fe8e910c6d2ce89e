-- ===== src/Agents.antt =====
-- src/agentic_lab/agents/: what is asked of a model, and which of its answers are refused.
pub mod Ci
pub mod Loop
pub mod Assessor
pub mod Diagnosis
pub mod Grounded
