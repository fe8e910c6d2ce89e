-- ===== src/Policy.antt =====
-- src/agentic_lab/policy/: what a patch may touch, and when it may be pushed.
pub mod Patch
pub mod PushGate
pub mod Audit
pub mod ManifestRegistry
