-- ===== src/Conductor/Iteration/Stages.antt =====
-- src/conductor/conductor.ts: the stages of an iteration behind its worktree, the last one first.
use autodev_harness.Common.{
  ℕ, zero, suc, ◌-◌, String, Bool, true, false, not, ◌&&◌, ◌||◌, Option, none, some, List, ◌∷◌,
  is_nil, ◌==◌, if◌then◌else◌,
}
use autodev_harness.Util.Fallible.{Result, ok, err, pure, lift, ◌>>=◌, ◌>>◌}
use autodev_harness.Util.Fingerprint.{
  Snapshot, worker_touched, stray_changed, forbidden_touches, oracle_glob_touches,
}
use autodev_harness.Blackboard.{Task, QueueState, pending, active, done, escalated, quarantine}
use autodev_harness.Gate.Monad.{GateVerdict, GateInput, Decision, commit, retry, escalate}
use autodev_harness.Conductor.State.{
  Verdict, VerdictKind, clean, Worktree, Site, MergeResult, WorkerResult, OracleSet, merged,
  conflict, refused, Incident, oracle_unresolved, too_big, needs_a_guard, is_blocked,
  oracle_touched, out_of_scope, no_verdict, not_clean, gate_threw, branch_moved, merge_failed,
  gate_refused, Ending, abandoned, escalated_ending, quarantined, committed_ending, Content, text,
  IterationResult, Env, M, move, set_attempts, write_runtime, read_runtime, persist_verdict,
  escalate_and_record, set_rounds, set_critic, set_gate, set_outcome, set_commit,
}

-- The result of every exit but a commit and a rate limit.
abbrev pub stopped : String → IterationResult
stopped id = record { claimed = some id; committed = false; rate_limited = false }

-- `wr` of `worker.run`, which is counted.
abbrev pub run_worker : Env → Worktree → ℕ → Option Content → Option Content → M WorkerResult
run_worker env wt r critic gate w =
    (env.worker_run wt r critic gate, record w { worker_runs = suc w.worker_runs })

-- A merge that lands is noted.
abbrev pub note_merge : Site → String → M (Unit {0})
note_merge site hash w = (
  ok tt,
  record w {
    merges = record { worktree = site.worktree; target = site.branch; commit = hash } ∷ w.merges;
  },
)

abbrev pub gate_input : Task → GateInput
gate_input task = record {
  task_id = task.id;
  file_set = task.file_set;
  range = none;
  success_commands = task.success_commands;
}

abbrev pub report_text : Option Content → String
report_text (some (text s)) = s
report_text _ = ""

-- `contractRisk`
abbrev pub contract_risk : Task → List String → Verdict → Bool
contract_risk task zones v =
    task.touches_contract_zone || not (is_nil zones) || not (is_nil v.broken_contracts)

module _ (env : Env) (task : Task) where
  -- The exit of most refusals: the move first, then the escalation.
  unfoldable pub park : QueueState → Incident → Ending → M IterationResult
  park to incident outcome =
      move env task.id active to
      >> escalate_and_record env task.id incident outcome
      >> pure (stopped task.id)

  -- A rate limit gives the attempt back.
  unfoldable pub throttled : ℕ → M IterationResult
  throttled attempts =
      set_attempts env task.id (attempts - 1)
      >> move env task.id active pending
      >> pure (record { claimed = some task.id; committed = false; rate_limited = true })

  -- The merge has landed; `markDone` and the digest are best effort.
  unfoldable pub landed : String → M IterationResult
  landed hash =
      move env task.id active done
      >> set_outcome committed_ending
      >> set_commit hash
      >> pure (record { claimed = some task.id; committed = true; rate_limited = false })

  -- The answer of `mergeAfterGate`.
  unfoldable pub merge_answer : Site → String → MergeResult → M IterationResult
  merge_answer site hash merged = note_merge site hash >> landed hash
  merge_answer site hash conflict = park escalated (merge_failed conflict) escalated_ending
  merge_answer site hash (refused why) =
      park escalated (merge_failed (refused why)) escalated_ending

  unfoldable pub merge_stage : Site → M IterationResult
  merge_stage site = do
    hash ← lift (env.commit_files site.worktree task.file_set)
    result ← lift (env.merge_after_gate site.worktree site.branch)
    merge_answer site hash result

  -- `cur === "main" || !allowed.test(cur) || cur !== loopBranch`
  abbrev pub off_branch : String → String → Bool
  off_branch loop_branch cur =
      (cur == "main") || not (env.allowed_branch cur) || not (cur == loop_branch)

  unfoldable pub commit_stage : Site → M IterationResult
  commit_stage site = do
    cur ← lift env.branch_at_commit
    if off_branch site.branch cur
        then park escalated (branch_moved cur site.branch) escalated_ending
        else merge_stage site

  -- What follows each decision of the verdict `v`.
  unfoldable pub decided : Site → GateVerdict → Decision → M IterationResult
  decided site v retry =
      move env task.id active pending >> set_outcome abandoned >> pure (stopped task.id)
  decided site v commit = commit_stage site
  decided site v escalate = park escalated (gate_refused v) escalated_ending

  -- The answer of `runGate`, or its throw.
  unfoldable pub gate_answer : Site → Result GateVerdict → M IterationResult
  gate_answer site (err e) =
      park escalated (gate_threw e (not (is_nil task.contract_zones_touched))) escalated_ending
  gate_answer site (ok v) = set_gate v >> decided site v v.decision

  -- The round escalates on its verdict, and leaves the objection for a rework.
  unfoldable pub escalate_verdict : ℕ → Verdict → M IterationResult
  escalate_verdict r v =
      persist_verdict env v
      >> write_runtime env "critic-feedback.md" (text v.notes)
      >> move env task.id active escalated
      >> set_rounds r
      >> set_critic v
      >> escalate_and_record env task.id (not_clean v) escalated_ending
      >> pure (stopped task.id)

  -- `next` is the next round, unless this is the last one.
  unfoldable pub try_again : ℕ → Option (M IterationResult) → Verdict → M IterationResult
  try_again r none v = escalate_verdict r v
  try_again r (some again) v = write_runtime env "critic-feedback.md" (text v.notes) >> again

  unfoldable pub judge_not_clean :
      ℕ → Option (M IterationResult) → Verdict → String → M IterationResult
  judge_not_clean r next v diff = do
    zones ← lift (env.zones_in_diff diff)
    if contract_risk task zones v then escalate_verdict r v else try_again r next v

  unfoldable pub silent_critic : ℕ → M IterationResult
  silent_critic r =
      move env task.id active escalated
      >> set_rounds r
      >> escalate_and_record env task.id no_verdict escalated_ending
      >> pure (stopped task.id)

  module _ (attempts : ℕ) (site : Site) where
    -- A clean verdict goes on to the gate.
    unfoldable pub approved : ℕ → Verdict → M IterationResult
    approved r v =
        persist_verdict env v
        >> set_rounds r
        >> set_critic v
        >> gate_answer site (env.run_gate (gate_input task) site.worktree)

    unfoldable pub on_kind :
        ℕ → Option (M IterationResult) → String → Verdict → VerdictKind → M IterationResult
    on_kind r next diff v clean = approved r v
    on_kind r next diff v _ = judge_not_clean r next v diff

    -- The critic's answer: its verdict, and whether it was rate limited.
    unfoldable pub on_verdict :
        ℕ → Option (M IterationResult) → String → Option Verdict → Bool → M IterationResult
    on_verdict r next diff none limited = if limited then throttled attempts else silent_critic r
    on_verdict r next diff (some v) limited = on_kind r next diff v v.verdict

    unfoldable pub review_stage : ℕ → Option (M IterationResult) → M IterationResult
    review_stage r next = do
      diff ← lift (env.worktree_diff site.worktree task.file_set r)
      write_runtime env "diff.patch" (text diff)
      write_runtime env "loop-branch" (text site.branch)
      cr ← lift (env.critic_run r diff)
      on_verdict r next diff cr.verdict cr.rate_limited

    -- The two fences, on what the worker touched.
    unfoldable pub fenced :
        ℕ → Option (M IterationResult) → OracleSet → Snapshot → Snapshot → M IterationResult
    fenced r next set base after =
        let touched = worker_touched base after in
        let drift =
          worker_touched (env.oracle_before site.worktree r set)
            (env.oracle_after site.worktree r set) in
        let hits = oracle_glob_touches touched set.globs in
        let stray = stray_changed touched task.file_set env.dirty_fence_ignore in
        let forbidden = forbidden_touches touched task.forbidden_paths in
        if is_nil drift && is_nil hits
        then (if is_nil stray && is_nil forbidden
            then review_stage r next
            else park escalated (out_of_scope stray forbidden) escalated_ending)
        else park escalated (oracle_touched drift hits) escalated_ending

    -- The worker's report is moved to the runtime files before it is read there.
    unfoldable pub harvested : Option String → M (Unit {0})
    harvested none = pure tt
    harvested (some report) = write_runtime env "worker-report.md" (text report)

    unfoldable pub on_status :
        ℕ → Option (M IterationResult) → OracleSet → Snapshot → String → M IterationResult
    on_status r next set base report =
        let status = env.status_of report in
        if status == "TOO_BIG"
        then park quarantine (too_big report) quarantined
        else if status == "NEEDS_GUARD"
        then park escalated (needs_a_guard report) escalated_ending
        else if status == "BLOCKED"
        then park escalated (is_blocked report) escalated_ending
        else (do after ← lift (env.changed_after site.worktree r); fenced r next set base after)

    unfoldable pub report_stage :
        ℕ → Option (M IterationResult) → OracleSet → Snapshot → M IterationResult
    report_stage r next set base = do
      moved ← lift (env.harvest site.worktree r)
      harvested moved
      report ← read_runtime env "worker-report.md"
      on_status r next set base (report_text report)

    unfoldable pub worker_stage :
        ℕ → Option (M IterationResult) → OracleSet → Snapshot → M IterationResult
    worker_stage r next set base = do
      critic ← read_runtime env "critic-feedback.md"
      gate ← read_runtime env "gate-feedback.md"
      wr ← run_worker env site.worktree r critic gate
      if wr.rate_limited
          then throttled attempts
          else if wr.timed_out
          then (move env task.id active pending >> pure (stopped task.id))
          else report_stage r next set base

    unfoldable pub round_with :
        ℕ → Option (M IterationResult) → Result OracleSet → M IterationResult
    round_with r next (err e) = park escalated (oracle_unresolved e) escalated_ending
    round_with r next (ok set) = do
      base ← lift (env.changed_before site.worktree r)
      worker_stage r next set base

    abbrev pub round_stage : ℕ → Option (M IterationResult) → M IterationResult
    round_stage r next = round_with r next (env.resolve_oracle_set r)

    -- Round `r`, with `left` more rounds behind it.
    unfoldable pub rounds : (left r : ℕ) → M IterationResult
    rounds zero r = round_stage r none
    rounds (suc left) r = round_stage r (some (rounds left (suc r)))
