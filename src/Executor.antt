-- ===== src/Executor.antt =====
-- src/agentic_lab/executor/: which recipes may be run, and with which arguments.
pub mod Manifest
