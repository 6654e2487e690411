-- ===== src/Gate/Findings.antt =====
-- src/gate/finding-filter.ts: which findings of a tool are the worker's.
pub mod Paths
pub mod Filter
pub mod Laws
pub mod Candidates
pub mod Places
pub mod Dropped
