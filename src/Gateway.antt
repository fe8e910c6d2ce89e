-- ===== src/Gateway.antt =====
-- src/agentic_lab/gateway/: what stands between the lab and the outside.
pub mod Redaction
pub mod PatchApply
pub mod Github
pub mod Capability
pub mod Tracing
pub mod Model
