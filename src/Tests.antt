-- ===== src/Tests.antt =====
-- Test data, runs at concrete inputs, and an instance of each theorem that has hypotheses.
mod Values
mod Runs
mod Leases
mod Policy
mod Push
mod Reads
mod Manifests
mod Worker
mod Patches
mod Tools
mod Agents
