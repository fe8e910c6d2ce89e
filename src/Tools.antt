-- ===== src/Tools.antt =====
-- src/agentic_lab/tools/: what an agent can ask for while it runs.
pub mod Registry
