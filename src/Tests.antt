-- ===== src/Tests.antt =====
-- Concrete tasks, boards, gates and environments, and the theorems on them.
mod Arrays
mod Boards
mod Chats
mod Diffs
mod Escalations
mod Fences
mod Findings
mod Gates
mod Iterations
mod Nights
mod Projects
mod Runs
mod Tables
mod Threads
mod Watches
