-- ===== src/Conductor/Iteration/Refines.antt =====
-- An iteration refines the scheduler's step relation, so it keeps the locks.
use autodev_harness.Common.{ℕ, suc, ltb, String, Option, none, some, ◌≡◌, refl, arith}
use autodev_harness.Util.Fallible.{Result, ok, err, lift}
use autodev_harness.Blackboard.{Task, Board, escalated, quarantine}
use autodev_harness.Scheduler.{claim_next_task}
use autodev_harness.Scheduler.Locks.{Reach, here, next, claims, IsValid, Reach-IsValid}
use autodev_harness.Conductor.State.{
  Site, World, IterationResult, Env, circuit_breaker, quarantined, unexpected, escalated_ending,
  get_attempts, set_attempts,
}
use autodev_harness.Conductor.Iteration.Stages.{park, rounds}
use autodev_harness.Conductor.Iteration.{
  backstop, in_worktree, with_worktree, guarded_attempt, finished, attempt, started, on_claim,
  run_iteration, max_rounds,
}
use autodev_harness.Conductor.Iteration.Travels.{park-Travels, rounds-Travels}
use autodev_harness.Conductor.Iteration.Travels.Rules.{
  Reach-trans, Reach-same, Travels, then_Travels, choose-Travels, move-Travels, escalate-Travels,
  set_attempts-Travels,
}

module _ (env : Env) where
  backstop-Travels :
      (task : Task) (r : Result IterationResult × World)
      → Reach env.before r.1.board (backstop env task r).1.board
  unfolding backstop
  backstop-Travels task (ok a, w) = here
  backstop-Travels task (err e, w) =
      Reach-trans env.before (move-Travels env task.id escalated w)
        (escalate-Travels env task.id (unexpected e) escalated_ending _)

  in_worktree-Travels :
      (task : Task) (attempts : ℕ) (site : Site) → Travels env (in_worktree env task attempts site)
  unfolding in_worktree
  in_worktree-Travels task attempts site w =
      let begun = record w { worktrees = suc w.worktrees } in
      Reach-trans env.before (rounds-Travels env task attempts site (max_rounds env task) 0 begun)
        (backstop-Travels task (rounds env task attempts site (max_rounds env task) 0 begun))

  guarded_attempt-Travels :
      (task : Task) (attempts : ℕ) → Travels env (guarded_attempt env task attempts)
  unfolding guarded_attempt with_worktree
  guarded_attempt-Travels task attempts =
      choose-Travels env (ltb env.max_attempts attempts)
        (park env task quarantine (circuit_breaker attempts env.max_attempts) quarantined)
        (with_worktree env task attempts) (park-Travels env task _ _ _)
        (then_Travels env (lift env.current_branch) _ (λ w. here)
          (λ loop_branch.
            then_Travels env (lift (env.create_worktree task.id loop_branch))
              (λ wt. in_worktree env task attempts (record { branch = loop_branch; worktree = wt }))
              (λ w. here)
              (λ wt.
                in_worktree-Travels task attempts
                  (record { branch = loop_branch; worktree = wt }))))

  finished-board : (r : Result IterationResult × World) → (finished env r).1.board ≡ r.1.board
  unfolding finished
  finished-board (r, w) = ground arith

  get_attempts-Travels : (id : String) → Travels env (get_attempts env id)
  unfolding get_attempts
  get_attempts-Travels id w = Reach-same env.before (ground arith)

  attempt-Travels : (task : Task) → Travels env (attempt env task)
  unfolding attempt
  attempt-Travels task =
      then_Travels env (get_attempts env task.id) _ (get_attempts-Travels task.id) (λ prior.
        then_Travels env (set_attempts env task.id (suc prior)) _
          (set_attempts-Travels env task.id (suc prior))
          (λ _ w.
            Reach-trans env.before
              (guarded_attempt-Travels task (suc prior) (started env (suc prior) w))
              (Reach-same env.before (
                finished-board
                  (guarded_attempt env task (suc prior) (started env (suc prior) w))))))

  on_claim-Travels :
      (w : World) (claim : Option Task × Board)
      → claim_next_task env.before w.board w.board ≡ claim
      → Reach env.before w.board (on_claim env w claim).1.board
  unfolding on_claim
  on_claim-Travels w (none, b) e = here
  on_claim-Travels w (some task, b) e =
      Reach-trans env.before (next here (claims task e))
        (attempt-Travels task (record w { board = b }))

  -- If no other process moves a task between the claim's reads and its rename, an iteration takes
  -- the board along claims, settlements of tasks that hold locks, and requeues, whatever it answers
  -- or throws.
  pub run_iteration-Reach :
      (w : World) → Reach env.before w.board (run_iteration env w.board w).1.board
  unfolding run_iteration
  run_iteration-Reach w = on_claim-Travels w (claim_next_task env.before w.board w.board) refl

  -- If no other process moves a task between the claim's reads and its rename, an iteration that
  -- starts on a valid board ends on one, whatever it answers or throws: two tasks that are active
  -- or escalated under different names share no normalised path.
  pub run_iteration-IsValid :
      (w : World) → IsValid w.board → IsValid (run_iteration env w.board w).1.board
  run_iteration-IsValid w valid = Reach-IsValid env.before valid (run_iteration-Reach w)
