-- ===== src/Gate/Diff.antt =====
-- src/gate/diff-lines.ts: the walk of a unified diff.
pub mod Refusal
pub mod Quoting
pub mod Headers
pub mod Walk
pub mod Lines
pub mod Readers
pub mod Keeps
pub mod Names
pub mod Accounts
pub mod Agree
pub mod Bodies
pub mod Numbers
