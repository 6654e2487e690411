-- ===== src/Conductor.antt =====
-- src/conductor/conductor.ts: one task at a time from pending to done, or to an operator.
pub mod State
pub mod Iteration
pub mod Run
