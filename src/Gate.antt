-- ===== src/Gate.antt =====
-- src/gate/gate.ts: `runGate`, the decision whether a reviewed change may be committed.
--
-- What the gate calls is its environment: the loaders, git, the check commands, the guards' live
-- mutation checks, agent-ci and the profile gates, each of which answers or throws. A run threads
-- the tool output of its failed steps, which survives a throw.
pub mod Diff
pub mod Findings
pub mod Zones
pub mod Guards
pub mod Monad
pub mod Steps
pub mod Run
pub mod Mutation
