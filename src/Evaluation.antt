-- ===== src/Evaluation.antt =====
-- src/agentic_lab/evaluation/: what is measured of an artifact.
pub mod Evaluators
