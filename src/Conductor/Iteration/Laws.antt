-- ===== src/Conductor/Iteration/Laws.antt =====
-- What an iteration may merge, and a throw that it does not catch.
use autodev_harness.Common.{◌≡◌}
use autodev_harness.Util.Fallible.{ok}
use autodev_harness.Blackboard.{Task}
use autodev_harness.Conductor.State.{Site, Merge, Env}
use autodev_harness.Conductor.Iteration.Merges.{IsApproved}

-- A released and reviewed merge of a task into the branch that the iteration began on.
abbrev pub IsMerged : Env → Task → Merge → Type 0
IsMerged env task x =
    (site : Site) × (env.current_branch ≡ ok site.branch)
    × (env.create_worktree task.id site.branch ≡ ok site.worktree)
    × IsApproved env task site x
