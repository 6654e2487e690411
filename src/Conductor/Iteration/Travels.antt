-- ===== src/Conductor/Iteration/Travels.antt =====
-- An iteration takes the board along the scheduler's steps.
pub mod Rules
use autodev_harness.Common.{
  ◌-◌, ◌==◌, ℕ, zero, suc, ltb, String, Bool, true, false, Option, none, some, List, ◌≡◌, refl,
  arith, if◌then◌else◌, is_nil, ◌&&◌, not,
}
use autodev_harness.Util.Fallible.{Result, ok, err, and_then, pure, lift, ◌>>=◌, ◌>>◌}
use autodev_harness.Util.Fingerprint.{
  Snapshot, worker_touched, stray_changed, forbidden_touches, oracle_glob_touches,
}
use autodev_harness.Blackboard.{
  Task, Board, QueueState, pending, active, done, escalated, quarantine,
}
use autodev_harness.Gate.Monad.{GateVerdict, Decision, commit, retry, escalate}
use autodev_harness.Conductor.State.{
  Site, Worktree, Verdict, VerdictKind, MergeResult, clean, merged, conflict, refused, text,
  not_clean, no_verdict, set_rounds, set_critic, OracleSet, escalated_ending, Incident, Ending,
  World, IterationResult, Env, M, move, set_attempts, write_runtime, read_runtime, persist_verdict,
  escalate_and_record, quarantined, too_big, needs_a_guard, is_blocked, set_gate, out_of_scope,
  oracle_touched,
}
use autodev_harness.Conductor.Iteration.Stages.{
  gate_input, stopped, park, merge_answer, gate_answer, try_again, approved, on_kind, round_with,
  throttled, landed, merge_stage, commit_stage, off_branch, decided, escalate_verdict,
  judge_not_clean, contract_risk, silent_critic, on_verdict, review_stage, fenced, harvested,
  on_status, report_stage, worker_stage, run_worker, report_text, rounds, note_merge,
}
use autodev_harness.Scheduler.Locks.{here}
use autodev_harness.Conductor.Iteration.Travels.Rules.{
  Reach-trans, Travels, then_Travels, choose-Travels, move-Travels, escalate-Travels,
  set_attempts-Travels, write-Travels, read-Travels, persist-Travels,
}

module _ (env : Env) (task : Task) where
  pub park-Travels :
      (to : QueueState) (i : Incident) (o : Ending) → Travels env (park env task to i o)
  unfolding park
  park-Travels to i o =
      then_Travels env (move env task.id active to) _ (move-Travels env task.id to) (λ _.
        then_Travels env (escalate_and_record env task.id i o) _ (escalate-Travels env task.id i o)
          (λ _ _. here))

  parked : (i : Incident) → Travels env (park env task escalated i escalated_ending)
  parked i = park-Travels escalated i escalated_ending

  -- A move, then assignments.
  moved-Travels :
      (to : QueueState) (k : M IterationResult)
      → Travels env k
      → Travels env (move env task.id active to >> k)
  moved-Travels to k h =
      then_Travels env (move env task.id active to) (λ _. k) (move-Travels env task.id to) (λ _. h)

  throttled-Travels : (attempts : ℕ) → Travels env (throttled env task attempts)
  unfolding throttled
  throttled-Travels attempts =
      then_Travels env (set_attempts env task.id (attempts - 1)) _
        (set_attempts-Travels env task.id (attempts - 1)) (λ _. moved-Travels pending _ (λ _. here))

  merge_answer-Travels :
      (site : Site) (hash : String) (a : MergeResult)
      → Travels env (merge_answer env task site hash a)
  unfolding merge_answer landed
  merge_answer-Travels site hash merged w =
      moved-Travels done _ (λ v. here) (note_merge site hash w).1
  merge_answer-Travels site hash conflict w = parked _ w
  merge_answer-Travels site hash (refused why) w = parked _ w

  commit_stage-Travels : (site : Site) → Travels env (commit_stage env task site)
  unfolding commit_stage merge_stage
  commit_stage-Travels site =
      then_Travels env (lift env.branch_at_commit) _ (λ w. here)
        (λ cur. choose-Travels env (off_branch env task site.branch cur) _ _ (parked _) (
          then_Travels env (lift (env.commit_files site.worktree task.file_set)) _ (λ w. here)
            (λ hash.
              then_Travels env (lift (env.merge_after_gate site.worktree site.branch)) _ (λ w. here)
                (merge_answer-Travels site hash))))

  decided-Travels :
      (site : Site) (v : GateVerdict) (d : Decision) → Travels env (decided env task site v d)
  unfolding decided
  decided-Travels site v retry w = moved-Travels pending _ (λ u. here) w
  decided-Travels site v commit w = commit_stage-Travels site w
  decided-Travels site v escalate w = parked _ w

  gate_answer-Travels :
      (site : Site) (answer : Result GateVerdict) → Travels env (gate_answer env task site answer)
  unfolding gate_answer
  gate_answer-Travels site (err e) w = parked _ w
  gate_answer-Travels site (ok v) w =
      decided-Travels site v v.decision (record w { draft = record (w.draft) { gate = some v } })

  escalate_verdict-Travels : (r : ℕ) (v : Verdict) → Travels env (escalate_verdict env task r v)
  unfolding escalate_verdict
  escalate_verdict-Travels r v =
      then_Travels env (persist_verdict env v) _ (persist-Travels env v) (λ _.
        then_Travels env (write_runtime env "critic-feedback.md" (text v.notes)) _
          (write-Travels env _ _)
          (λ _. moved-Travels escalated _ (λ w.
            then_Travels env (escalate_and_record env task.id (not_clean v) escalated_ending)
              (λ _. pure (stopped task.id))
              (escalate-Travels env task.id (not_clean v) escalated_ending) (λ _ _. here)
              (record w { draft = record (w.draft) { rounds = r; critic = some v } }))))

  silent_critic-Travels : (r : ℕ) → Travels env (silent_critic env task r)
  unfolding silent_critic
  silent_critic-Travels r = moved-Travels escalated _ (λ w.
      then_Travels env (escalate_and_record env task.id no_verdict escalated_ending)
        (λ _. pure (stopped task.id)) (escalate-Travels env task.id no_verdict escalated_ending)
        (λ _ _. here) (record w { draft = record (w.draft) { rounds = r } }))

  -- The next round, if there is one, travels too.
  abbrev NextTravels : Option (M IterationResult) → Type 0
  NextTravels none = Unit
  NextTravels (some again) = Travels env again

  try_again-Travels :
      (r : ℕ) (next : Option (M IterationResult)) (v : Verdict)
      → NextTravels next
      → Travels env (try_again env task r next v)
  unfolding try_again
  try_again-Travels r none v h w = escalate_verdict-Travels r v w
  try_again-Travels r (some again) v h w =
      then_Travels env (write_runtime env "critic-feedback.md" (text v.notes)) (λ _. again)
        (write-Travels env _ _) (λ _. h) w

  judge_not_clean-Travels :
      (r : ℕ) (next : Option (M IterationResult)) (v : Verdict) (diff : String)
      → NextTravels next
      → Travels env (judge_not_clean env task r next v diff)
  unfolding judge_not_clean
  judge_not_clean-Travels r next v diff h =
      then_Travels env (lift (env.zones_in_diff diff)) _ (λ w. here)
        (λ zones.
          choose-Travels env (contract_risk task zones v) _ _ (escalate_verdict-Travels r v)
            (try_again-Travels r next v h))

  module _ (attempts : ℕ) (site : Site) where
    approved-Travels : (r : ℕ) (v : Verdict) → Travels env (approved env task attempts site r v)
    unfolding approved
    approved-Travels r v =
        then_Travels env (persist_verdict env v)
          (λ _.
            set_rounds r
            >> set_critic v
            >> gate_answer env task site (env.run_gate (gate_input task) site.worktree))
          (persist-Travels env v)
          (λ _ w.
            gate_answer-Travels site (env.run_gate (gate_input task) site.worktree)
              (record w { draft = record (w.draft) { rounds = r; critic = some v } }))

    on_kind-Travels :
        (r : ℕ) (next : Option (M IterationResult)) (diff : String) (v : Verdict) (k : VerdictKind)
        → NextTravels next
        → Travels env (on_kind env task attempts site r next diff v k)
    unfolding on_kind
    on_kind-Travels r next diff v clean h = approved-Travels r v
    on_kind-Travels r next diff v _ h = judge_not_clean-Travels r next v diff h

    on_verdict-Travels :
        (r : ℕ) (next : Option (M IterationResult)) (diff : String) (v : Option Verdict)
        → (limited : Bool) → NextTravels next
        → Travels env (on_verdict env task attempts site r next diff v limited)
    unfolding on_verdict
    on_verdict-Travels r next diff none limited h =
        choose-Travels env limited _ _ (throttled-Travels attempts) (silent_critic-Travels r)
    on_verdict-Travels r next diff (some v) limited h = on_kind-Travels r next diff v v.verdict h

    review_stage-Travels :
        (r : ℕ) (next : Option (M IterationResult))
        → NextTravels next
        → Travels env (review_stage env task attempts site r next)
    unfolding review_stage
    review_stage-Travels r next h =
        then_Travels env (lift (env.worktree_diff site.worktree task.file_set r)) _ (λ w. here)
          (λ diff.
            then_Travels env (write_runtime env "diff.patch" (text diff)) _ (write-Travels env _ _)
              (λ _.
                then_Travels env (write_runtime env "loop-branch" (text site.branch)) _
                  (write-Travels env _ _)
                  (λ _.
                    then_Travels env (lift (env.critic_run r diff)) _ (λ w. here)
                      (λ cr. on_verdict-Travels r next diff cr.verdict cr.rate_limited h))))

    fenced-Travels :
        (r : ℕ) (next : Option (M IterationResult)) (set : OracleSet) (base after : Snapshot)
        → NextTravels next
        → Travels env (fenced env task attempts site r next set base after)
    unfolding fenced
    fenced-Travels r next set base after h =
        let touched = worker_touched base after in
        let drift =
          worker_touched (env.oracle_before site.worktree r set)
            (env.oracle_after site.worktree r set) in
        let hits = oracle_glob_touches touched set.globs in
        let stray = stray_changed touched task.file_set env.dirty_fence_ignore in
        let forbidden = forbidden_touches touched task.forbidden_paths in
        choose-Travels env (is_nil drift && is_nil hits)
          (if is_nil stray && is_nil forbidden
            then review_stage env task attempts site r next
            else park env task escalated (out_of_scope stray forbidden) escalated_ending)
          (park env task escalated (oracle_touched drift hits) escalated_ending)
          (choose-Travels env (is_nil stray && is_nil forbidden)
            (review_stage env task attempts site r next)
            (park env task escalated (out_of_scope stray forbidden) escalated_ending)
            (review_stage-Travels r next h) (parked (out_of_scope stray forbidden)))
          (parked (oracle_touched drift hits))

    on_status-Travels :
        (r : ℕ) (next : Option (M IterationResult)) (set : OracleSet) (base : Snapshot)
        → (report : String) → NextTravels next
        → Travels env (on_status env task attempts site r next set base report)
    unfolding on_status
    on_status-Travels r next set base report h =
        let status = env.status_of report in
        let go_on : M IterationResult = lift (env.changed_after site.worktree r) >>= λ after.
        fenced env task attempts site r next set base after in
        let blocked_or : M IterationResult =
          if status == "BLOCKED"
          then park env task escalated (is_blocked report) escalated_ending
          else go_on in
        let guard_or : M IterationResult =
          if status == "NEEDS_GUARD"
          then park env task escalated (needs_a_guard report) escalated_ending
          else blocked_or in
        choose-Travels env (status == "TOO_BIG")
          (park env task quarantine (too_big report) quarantined) guard_or
          (park-Travels quarantine (too_big report) quarantined)
          (choose-Travels env (status == "NEEDS_GUARD") _ blocked_or (parked (needs_a_guard report))
            (choose-Travels env (status == "BLOCKED") _ go_on (parked (is_blocked report)) (
              then_Travels env (lift (env.changed_after site.worktree r)) _ (λ w. here)
                (λ after. fenced-Travels r next set base after h))))

    harvested-Travels : (o : Option String) → Travels env (harvested env task attempts site o)
    unfolding harvested
    harvested-Travels none w = here
    harvested-Travels (some report) w = write-Travels env _ _ w

    worker_stage-Travels :
        (r : ℕ) (next : Option (M IterationResult)) (set : OracleSet) (base : Snapshot)
        → NextTravels next
        → Travels env (worker_stage env task attempts site r next set base)
    unfolding worker_stage report_stage
    worker_stage-Travels r next set base h =
        then_Travels env (read_runtime env "critic-feedback.md") _ (read-Travels env _) (λ critic.
          then_Travels env (read_runtime env "gate-feedback.md") _ (read-Travels env _) (λ gate.
            then_Travels env (run_worker env site.worktree r critic gate) _ (λ w. here)
              (λ wr. choose-Travels env wr.rate_limited _ _ (throttled-Travels attempts) (
                choose-Travels env wr.timed_out _ _ (moved-Travels pending _ (λ w. here)) (
                  then_Travels env (lift (env.harvest site.worktree r)) _ (λ w. here)
                    (λ moved.
                      then_Travels env (harvested env task attempts site moved) _
                        (harvested-Travels moved)
                        (λ _.
                          then_Travels env (read_runtime env "worker-report.md") _
                            (read-Travels env _)
                            (λ report.
                              on_status-Travels r next set base (report_text report) h))))))))

    round_with-Travels :
        (r : ℕ) (next : Option (M IterationResult)) (set : Result OracleSet)
        → NextTravels next
        → Travels env (round_with env task attempts site r next set)
    unfolding round_with
    round_with-Travels r next (err e) h w = parked _ w
    round_with-Travels r next (ok set) h w =
        then_Travels env (lift (env.changed_before site.worktree r)) _ (λ u. here)
          (λ base. worker_stage-Travels r next set base h) w

    pub rounds-Travels : (left r : ℕ) → Travels env (rounds env task attempts site left r)
    unfolding rounds
    rounds-Travels zero r = round_with-Travels r none (env.resolve_oracle_set r) tt
    rounds-Travels (suc left) r =
        round_with-Travels r (some (rounds env task attempts site left (suc r)))
          (env.resolve_oracle_set r) (rounds-Travels left (suc r))
