-- ===== src/Conductor/Iteration.antt =====
-- src/conductor/conductor.ts: `runIteration`, from the claim to the teardown.
--
-- The body's early returns are the ends of the stages below, each of which calls the next. The loop
-- over rounds is recursion on the rounds that are left: `round >= maxRounds` is `next = none`.
pub mod Stages
pub mod Leaving
pub mod Clears
pub mod Merges
pub mod Releases
pub mod Travels
pub mod Refines
pub mod Laws
use autodev_harness.Common.{
  ℕ, zero, suc, ◌+◌, ◌-◌, ltb, String, Bool, true, false, not, ◌&&◌, ◌||◌, Option, none, some,
  is_nil, ◌==◌, if◌then◌else◌,
}
use autodev_harness.Util.Fallible.{Result, ok, err, pure, lift, ◌>>=◌, ◌>>◌}
use autodev_harness.Blackboard.{Board, Task, pending, active, done, escalated, quarantine}
use autodev_harness.Scheduler.{claim_next_task}
use autodev_harness.Conductor.State.{
  circuit_breaker, unexpected, abandoned, escalated_ending, quarantined, Draft, World, Site,
  IterationResult, Env, M, move, get_attempts, set_attempts, escalate_and_record,
}
use autodev_harness.Conductor.Iteration.Stages.{stopped, park, rounds}

module _ (env : Env) where
  -- `task.max_rounds ?? cfg.roles.critic.retryMax`
  abbrev pub max_rounds : Task → ℕ
  max_rounds task = elim task.max_rounds [ none ↦ env.retry_max | some n ↦ n ]

  -- The backstop: a throw of the rounds, the gate or the commit ends in `escalated`, best effort.
  unfoldable pub backstop : Task → Result IterationResult × World → Result IterationResult × World
  backstop task (ok r, w) = (ok r, w)
  backstop task (err e, w) =
      let moved = (move env task.id active escalated w).1 in
      (
        ok (stopped task.id),
        (escalate_and_record env task.id (unexpected e) escalated_ending moved).1,
      )

  -- The rounds, between the worktree's creation and its teardown.
  abbrev pub torn_down : Result IterationResult × World → Result IterationResult × World
  torn_down (r, w) = (r, record w { worktrees = w.worktrees - 1 })

  unfoldable pub in_worktree : Task → ℕ → Site → M IterationResult
  in_worktree task attempts site w = torn_down (
      backstop task (
        rounds env task attempts site (max_rounds task) 0
          (record w { worktrees = suc w.worktrees })))

  unfoldable pub with_worktree : Task → ℕ → M IterationResult
  with_worktree task attempts = do
    loop_branch ← lift env.current_branch
    wt ← lift (env.create_worktree task.id loop_branch)
    in_worktree task attempts (record { branch = loop_branch; worktree = wt })

  -- The body of the outer `try`: the circuit breaker first.
  unfoldable pub guarded_attempt : Task → ℕ → M IterationResult
  unfolding with_worktree
  guarded_attempt task attempts =
      if ltb env.max_attempts attempts
      then park env task quarantine (circuit_breaker attempts env.max_attempts) quarantined
      else with_worktree task attempts

  -- The `finally` writes the draft to the ledger, unless that write fails.
  unfoldable pub finished : Result IterationResult × World → Result IterationResult × World
  finished (r, w) =
      if env.write_fault w.writes "evidence.json"
      then (r, w)
      else (r, record w { ledger = some w.draft })

  abbrev pub fresh_draft : ℕ → Draft
  fresh_draft attempts = record {
    outcome = abandoned;
    escalation = none;
    commit = none;
    rounds = 0;
    attempts = attempts;
    critic = none;
    gate = none;
  }

  -- The stale record is removed before any work, unless that removal fails.
  abbrev pub started : ℕ → World → World
  started attempts w = record w {
    draft = fresh_draft attempts;
    ledger = if env.remove_fault then w.ledger else none;
  }

  unfoldable pub attempt : Task → M IterationResult
  unfolding guarded_attempt finished
  attempt task = do
    before ← get_attempts env task.id
    set_attempts env task.id (suc before)
    λ w. finished (guarded_attempt task (suc before) (started (suc before) w))

  -- What follows the claim's answer.
  unfoldable pub on_claim : World → Option Task × Board → Result IterationResult × World
  on_claim w (none, b) =
      (ok (record { claimed = none; committed = false; rate_limited = false }), w)
  on_claim w (some task, b) = attempt task (record w { board = b })

  -- `runIteration`; `seen` is the board that the scheduler read.
  unfoldable pub run_iteration : Board → M IterationResult
  unfolding on_claim
  run_iteration seen w = on_claim w (claim_next_task env.before seen w.board)
