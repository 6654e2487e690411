-- ===== src/Conductor/Iteration/Clears.antt =====
-- Behind its worktree, an iteration takes its task out of `active`, whatever throws.
mod Endings
use autodev_harness.Common.{
  ◌-◌, ◌==◌, ℕ, zero, suc, String, Bool, true, false, Option, none, some, ◌≡◌, ◌≢◌, refl, inl, inr,
  arith, lookup, lookup-remove, eq_refl, Bool-cases, Option-cases, if◌then◌else◌,
}
use autodev_harness.Util.Fallible.{Result, ok, err, and_then, pure, lift, ◌>>=◌, ◌>>◌}
use autodev_harness.Util.Fingerprint.{Snapshot}
use autodev_harness.Blackboard.{
  Task, Board, QueueState, pending, active, done, escalated, quarantine, unsafe_segment, move_task,
}
use autodev_harness.Blackboard.Moves.{move_task-some, move_task_found}
use autodev_harness.Gate.Monad.{GateVerdict, Decision, commit, retry, escalate}
use autodev_harness.Conductor.State.{
  Site, Worktree, Verdict, VerdictKind, MergeResult, clean, merged, conflict, refused, text,
  not_clean, no_verdict, unexpected, too_big, needs_a_guard, is_blocked, set_rounds, set_critic,
  OracleSet, escalated_ending, quarantined, Incident, Ending, World, IterationResult, Env, M, move,
  set_attempts, write_runtime, read_runtime, persist_verdict, escalate_and_record,
}
use autodev_harness.Conductor.Iteration.{in_worktree, backstop, max_rounds}
use autodev_harness.Conductor.Iteration.Stages.{
  gate_input, stopped, park, merge_answer, gate_answer, try_again, approved, on_kind, round_with,
  throttled, landed, merge_stage, commit_stage, off_branch, decided, escalate_verdict,
  judge_not_clean, contract_risk, silent_critic, on_verdict, review_stage, fenced, harvested,
  on_status, report_stage, worker_stage, run_worker, report_text, rounds, note_merge,
}
use autodev_harness.Conductor.Iteration.Leaving.{
  HasLeft, Clears, KeepsBoard, follow-Clears, after-Clears, then_Clears, Clears-then,
  move_task-HasLeft, move-Clears, escalate-KeepsBoard, choose-Clears, move-HasLeft,
}
use autodev_harness.Conductor.Iteration.Clears.Endings.{
  Out, NextOut, moved-Clears, recorded-KeepsBoard, park-Clears, parked, throttled-Clears,
  landed-Clears, merge_answer-Clears, merge_stage-Clears, commit_stage-Clears, decided-Clears,
  gate_answer-Clears, escalate_verdict-Clears, try_again-Clears, judge_not_clean-Clears,
  silent_critic-Clears,
}

module _ (env : Env) (task : Task) (attempts : ℕ) (site : Site) where
  approved-Clears : (r : ℕ) (v : Verdict) → Out env task (approved env task attempts site r v)
  unfolding approved
  approved-Clears r v =
      then_Clears task.id (persist_verdict env v)
        (λ _.
          set_rounds r
          >> set_critic v
          >> gate_answer env task site (env.run_gate (gate_input task) site.worktree))
        (λ _ w. gate_answer-Clears env task site (env.run_gate (gate_input task) site.worktree) _)

  on_kind-Clears :
      (r : ℕ) (next : Option (M IterationResult)) (diff : String) (v : Verdict) (k : VerdictKind)
      → NextOut env task next
      → Out env task (on_kind env task attempts site r next diff v k)
  unfolding on_kind
  on_kind-Clears r next diff v clean h = approved-Clears r v
  on_kind-Clears r next diff v _ h = judge_not_clean-Clears env task r next v diff h

  on_verdict-Clears :
      (r : ℕ) (next : Option (M IterationResult)) (diff : String) (v : Option Verdict)
      → (limited : Bool) → NextOut env task next
      → Out env task (on_verdict env task attempts site r next diff v limited)
  unfolding on_verdict
  on_verdict-Clears r next diff none limited h =
      choose-Clears task.id limited _ _ (throttled-Clears env task attempts)
        (silent_critic-Clears env task r)
  on_verdict-Clears r next diff (some v) limited h = on_kind-Clears r next diff v v.verdict h

  review_stage-Clears :
      (r : ℕ) (next : Option (M IterationResult))
      → NextOut env task next
      → Out env task (review_stage env task attempts site r next)
  unfolding review_stage
  review_stage-Clears r next h =
      then_Clears task.id (lift (env.worktree_diff site.worktree task.file_set r)) _ (λ diff.
        then_Clears task.id (write_runtime env "diff.patch" (text diff)) _ (λ _.
          then_Clears task.id (write_runtime env "loop-branch" (text site.branch)) _ (λ _.
            then_Clears task.id (lift (env.critic_run r diff)) _
              (λ cr. on_verdict-Clears r next diff cr.verdict cr.rate_limited h))))

  fenced-Clears :
      (r : ℕ) (next : Option (M IterationResult)) (set : OracleSet) (base after : Snapshot)
      → NextOut env task next
      → Out env task (fenced env task attempts site r next set base after)
  unfolding fenced
  fenced-Clears r next set base after h =
      choose-Clears task.id _ _ _
        (choose-Clears task.id _ _ _ (review_stage-Clears r next h) (parked env task _))
        (parked env task _)

  on_status-Clears :
      (r : ℕ) (next : Option (M IterationResult)) (set : OracleSet) (base : Snapshot)
      → (report : String) → NextOut env task next
      → Out env task (on_status env task attempts site r next set base report)
  unfolding on_status
  on_status-Clears r next set base report h =
      let status = env.status_of report in
      let go_on : M IterationResult = lift (env.changed_after site.worktree r) >>= λ after.
      fenced env task attempts site r next set base after in
      let blocked_or : M IterationResult =
        if status == "BLOCKED"
        then park env task escalated (is_blocked report) escalated_ending
        else go_on in
      let guard_or : M IterationResult =
        if status == "NEEDS_GUARD"
        then park env task escalated (needs_a_guard report) escalated_ending
        else blocked_or in
      choose-Clears task.id (status == "TOO_BIG")
        (park env task quarantine (too_big report) quarantined) guard_or
        (park-Clears env task quarantine (too_big report) quarantined (λ e. cc))
        (choose-Clears task.id (status == "NEEDS_GUARD") _ blocked_or
          (parked env task (needs_a_guard report))
          (choose-Clears task.id (status == "BLOCKED") _ go_on (parked env task (is_blocked report))
            (then_Clears task.id (lift (env.changed_after site.worktree r)) _
              (λ after. fenced-Clears r next set base after h))))

  worker_stage-Clears :
      (r : ℕ) (next : Option (M IterationResult)) (set : OracleSet) (base : Snapshot)
      → NextOut env task next
      → Out env task (worker_stage env task attempts site r next set base)
  unfolding worker_stage report_stage
  worker_stage-Clears r next set base h =
      then_Clears task.id (read_runtime env "critic-feedback.md") _ (λ critic.
        then_Clears task.id (read_runtime env "gate-feedback.md") _ (λ gate.
          then_Clears task.id (run_worker env site.worktree r critic gate) _ (λ wr.
            choose-Clears task.id wr.rate_limited _ _ (throttled-Clears env task attempts) (
              choose-Clears task.id wr.timed_out _ _
                (moved-Clears env task pending _ (λ e. cc) (λ w. refl))
                (then_Clears task.id (lift (env.harvest site.worktree r)) _ (λ moved.
                  then_Clears task.id (harvested env task attempts site moved) _ (λ _.
                    then_Clears task.id (read_runtime env "worker-report.md") _
                      (λ report. on_status-Clears r next set base (report_text report) h))))))))

  round_with-Clears :
      (r : ℕ) (next : Option (M IterationResult)) (set : Result OracleSet)
      → NextOut env task next
      → Out env task (round_with env task attempts site r next set)
  unfolding round_with
  round_with-Clears r next (err e) h = parked env task _
  round_with-Clears r next (ok set) h =
      then_Clears task.id (lift (env.changed_before site.worktree r)) _
        (λ base. worker_stage-Clears r next set base h)

  rounds-Clears : (left r : ℕ) → Out env task (rounds env task attempts site left r)
  unfolding rounds
  rounds-Clears zero r = round_with-Clears r none (env.resolve_oracle_set r) tt
  rounds-Clears (suc left) r =
      round_with-Clears r (some (rounds env task attempts site left (suc r)))
        (env.resolve_oracle_set r) (rounds-Clears left (suc r))

backstop-HasLeft :
    (env : Env) (task : Task) (r : Result IterationResult × World)
    → ((n : ℕ) → env.move_fault n active escalated ≡ false)
    → unsafe_segment task.id ≡ false
    → ((a : IterationResult) → r.0 ≡ ok a → HasLeft task.id r.1)
    → ((a : IterationResult) × ((backstop env task r).0 ≡ ok a))
      × HasLeft task.id (backstop env task r).1
unfolding backstop
backstop-HasLeft env task (ok a, w) fine safe h = ((a, refl), h a refl)
backstop-HasLeft env task (err e, w) fine safe h = (
  (stopped task.id, refl),
  rw
      (escalate-KeepsBoard env task.id (unexpected e) escalated_ending
        (move env task.id active escalated w).1)
      (move-HasLeft env task.id escalated w (λ x. cc) (fine _) safe),
)

-- Once the worktree of an attempt exists, the attempt answers, and its task has left `active`:
-- whatever the worker, the critic, the gate, git and the repository's files do or throw, if no
-- rename from `active` to `escalated` fails and the id is a safe path segment.
pub in_worktree-HasLeft :
    (env : Env) (task : Task) (attempts : ℕ) (site : Site) (w : World)
    → ((n : ℕ) → env.move_fault n active escalated ≡ false)
    → unsafe_segment task.id ≡ false
    → ((a : IterationResult) × ((in_worktree env task attempts site w).0 ≡ ok a))
      × HasLeft task.id (in_worktree env task attempts site w).1
unfolding in_worktree
in_worktree-HasLeft env task attempts site w fine safe =
    let begun = record w { worktrees = suc w.worktrees } in
    backstop-HasLeft env task (rounds env task attempts site (max_rounds env task) 0 begun) fine
      safe (rounds-Clears env task attempts site (max_rounds env task) 0 begun)
