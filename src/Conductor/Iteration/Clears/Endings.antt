-- ===== src/Conductor/Iteration/Clears/Endings.antt =====
-- The ends of an iteration, and the stages from the gate on, take the task out of `active`.
use autodev_harness.Common.{◌-◌, ℕ, String, Option, none, some, ◌≢◌, refl, arith}
use autodev_harness.Util.Fallible.{Result, ok, err, pure, lift, ◌>>◌}
use autodev_harness.Blackboard.{Task, QueueState, pending, active, done, escalated}
use autodev_harness.Gate.Monad.{GateVerdict, Decision, commit, retry, escalate}
use autodev_harness.Conductor.State.{
  Site, Verdict, MergeResult, merged, conflict, refused, text, not_clean, no_verdict,
  escalated_ending, Incident, Ending, IterationResult, Env, M, move, set_attempts, write_runtime,
  persist_verdict, escalate_and_record,
}
use autodev_harness.Conductor.Iteration.Stages.{
  stopped, park, merge_answer, gate_answer, try_again, throttled, landed, merge_stage, commit_stage,
  off_branch, decided, escalate_verdict, judge_not_clean, contract_risk, silent_critic, note_merge,
}
use autodev_harness.Conductor.Iteration.Leaving.{
  Clears, KeepsBoard, then_Clears, Clears-then, move-Clears, choose-Clears,
}

module _ (env : Env) (task : Task) where
  abbrev pub Out : M IterationResult → Type 0
  Out = Clears task.id

  -- A move, then assignments that keep the board.
  pub moved-Clears :
      (to : QueueState) (k : M IterationResult)
      → to ≢ active
      → KeepsBoard k
      → Out (move env task.id active to >> k)
  moved-Clears to k ne h =
      Clears-then task.id (move env task.id active to) (λ _. k) (move-Clears env task.id to ne)
        (λ _. h)

  pub recorded-KeepsBoard :
      (incident : Incident) (outcome : Ending)
      → KeepsBoard (escalate_and_record env task.id incident outcome >> pure (stopped task.id))
  unfolding escalate_and_record
  recorded-KeepsBoard incident outcome w = ground arith

  pub park-Clears :
      (to : QueueState) (incident : Incident) (outcome : Ending)
      → to ≢ active
      → Out (park env task to incident outcome)
  unfolding park
  park-Clears to incident outcome ne = moved-Clears to _ ne (recorded-KeepsBoard incident outcome)

  pub parked : (incident : Incident) → Out (park env task escalated incident escalated_ending)
  parked incident = park-Clears escalated incident escalated_ending (λ e. cc)

  pub throttled-Clears : (attempts : ℕ) → Out (throttled env task attempts)
  unfolding throttled
  throttled-Clears attempts =
      then_Clears task.id (set_attempts env task.id (attempts - 1)) _
        (λ _. moved-Clears pending _ (λ e. cc) (λ w. refl))

  pub landed-Clears : (hash : String) → Out (landed env task hash)
  unfolding landed
  landed-Clears hash = moved-Clears done _ (λ e. cc) (λ w. refl)

  pub merge_answer-Clears :
      (site : Site) (hash : String) (result : MergeResult)
      → Out (merge_answer env task site hash result)
  unfolding merge_answer
  merge_answer-Clears site hash merged =
      then_Clears task.id (note_merge site hash) (λ _. landed env task hash)
        (λ _. landed-Clears hash)
  merge_answer-Clears site hash conflict = parked _
  merge_answer-Clears site hash (refused why) = parked _

  pub merge_stage-Clears : (site : Site) → Out (merge_stage env task site)
  unfolding merge_stage
  merge_stage-Clears site =
      then_Clears task.id (lift (env.commit_files site.worktree task.file_set)) _ (λ hash.
        then_Clears task.id (lift (env.merge_after_gate site.worktree site.branch)) _
          (merge_answer-Clears site hash))

  pub commit_stage-Clears : (site : Site) → Out (commit_stage env task site)
  unfolding commit_stage
  commit_stage-Clears site = then_Clears task.id (lift env.branch_at_commit) _ (λ cur.
      choose-Clears task.id (off_branch env task site.branch cur) _ _ (parked _)
        (merge_stage-Clears site))

  pub decided-Clears :
      (site : Site) (v : GateVerdict) (d : Decision) → Out (decided env task site v d)
  unfolding decided
  decided-Clears site v retry = moved-Clears pending _ (λ e. cc) (λ w. refl)
  decided-Clears site v commit = commit_stage-Clears site
  decided-Clears site v escalate = parked _

  pub gate_answer-Clears :
      (site : Site) (answer : Result GateVerdict) → Out (gate_answer env task site answer)
  unfolding gate_answer
  gate_answer-Clears site (err e) w = parked _ w
  gate_answer-Clears site (ok v) w = decided-Clears site v v.decision _

  pub escalate_verdict-Clears : (r : ℕ) (v : Verdict) → Out (escalate_verdict env task r v)
  unfolding escalate_verdict
  escalate_verdict-Clears r v = then_Clears task.id (persist_verdict env v) _ (λ _.
      then_Clears task.id (write_runtime env "critic-feedback.md" (text v.notes)) _ (λ _.
        moved-Clears escalated _ (λ e. cc)
          (λ w. recorded-KeepsBoard (not_clean v) escalated_ending _)))

  -- The next round, if there is one, takes the task out too.
  abbrev pub NextOut : Option (M IterationResult) → Type 0
  NextOut none = Unit
  NextOut (some again) = Out again

  pub try_again-Clears :
      (r : ℕ) (next : Option (M IterationResult)) (v : Verdict)
      → NextOut next
      → Out (try_again env task r next v)
  unfolding try_again
  try_again-Clears r none v h = escalate_verdict-Clears r v
  try_again-Clears r (some again) v h =
      then_Clears task.id (write_runtime env "critic-feedback.md" (text v.notes)) (λ _. again)
        (λ _. h)

  pub judge_not_clean-Clears :
      (r : ℕ) (next : Option (M IterationResult)) (v : Verdict) (diff : String)
      → NextOut next
      → Out (judge_not_clean env task r next v diff)
  unfolding judge_not_clean
  judge_not_clean-Clears r next v diff h =
      then_Clears task.id (lift (env.zones_in_diff diff)) _ (λ zones.
        choose-Clears task.id (contract_risk task zones v) _ _ (escalate_verdict-Clears r v)
          (try_again-Clears r next v h))

  pub silent_critic-Clears : (r : ℕ) → Out (silent_critic env task r)
  unfolding silent_critic
  silent_critic-Clears r =
      moved-Clears escalated _ (λ e. cc) (λ w. recorded-KeepsBoard no_verdict escalated_ending _)
