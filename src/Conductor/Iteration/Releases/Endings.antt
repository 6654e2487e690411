-- ===== src/Conductor/Iteration/Releases/Endings.antt =====
-- The ends of an iteration merge nothing; from the gate on, a merge is a released one.
use autodev_harness.Common.{
  ◌==◌, ℕ, String, true, false, not, some, ◌≡◌, refl, ap, ◌∙◌, inl, inr, arith, is_nil, ◌-◌, eq_iff,
}
use autodev_harness.Util.Fallible.{Result, ok, err, pure, lift, ◌>>◌}
use autodev_harness.Blackboard.{Task, QueueState, pending, active, done, escalated}
use autodev_harness.Gate.Monad.{GateVerdict, Decision, commit, retry, escalate}
use autodev_harness.Conductor.State.{
  Incident, Ending, Env, Site, Merge, move, set_attempts, write_runtime, persist_verdict,
  escalate_and_record, Verdict, MergeResult, merged, conflict, refused, text, not_clean, no_verdict,
  set_rounds, escalated_ending, merge_failed, branch_moved, gate_refused, gate_threw,
}
use autodev_harness.Conductor.Iteration.Stages.{
  stopped, park, throttled, landed, gate_input, merge_answer, merge_stage, commit_stage, off_branch,
  decided, gate_answer, escalate_verdict, silent_critic,
}
use autodev_harness.Conductor.Iteration.Merges.{
  Keeps, MergesOnly, then_Keeps, then_MergesOnly, choose-MergesOnly, move-Keeps, set_attempts-Keeps,
  write-Keeps, persist-Keeps, escalate-Keeps, IsReleased,
}

module _ (env : Env) (task : Task) where
  pub park-Keeps : (to : QueueState) (i : Incident) (o : Ending) → Keeps (park env task to i o)
  unfolding park
  park-Keeps to i o =
      then_Keeps (move env task.id active to) _ (move-Keeps env task.id active to) (λ _.
        then_Keeps (escalate_and_record env task.id i o) _ (escalate-Keeps env task.id i o)
          (λ _ w. refl))

  pub throttled-Keeps : (attempts : ℕ) → Keeps (throttled env task attempts)
  unfolding throttled
  throttled-Keeps attempts =
      then_Keeps (set_attempts env task.id (attempts - 1)) _
        (set_attempts-Keeps env task.id (attempts - 1))
        (λ _.
          then_Keeps (move env task.id active pending) _ (move-Keeps env task.id active pending)
            (λ _ w. refl))

  pub silent_critic-Keeps : (r : ℕ) → Keeps (silent_critic env task r)
  unfolding silent_critic
  silent_critic-Keeps r =
      then_Keeps (move env task.id active escalated) _ (move-Keeps env task.id active escalated)
        (λ _.
          then_Keeps (set_rounds r)
            (λ _.
              escalate_and_record env task.id no_verdict escalated_ending >> pure (stopped task.id))
            (λ w. refl)
            (λ _.
              then_Keeps (escalate_and_record env task.id no_verdict escalated_ending) _
                (escalate-Keeps env task.id no_verdict escalated_ending) (λ _ w. refl)))

  pub escalate_verdict-Keeps : (r : ℕ) (v : Verdict) → Keeps (escalate_verdict env task r v)
  unfolding escalate_verdict
  escalate_verdict-Keeps r v = then_Keeps (persist_verdict env v) _ (persist-Keeps env v) (λ _.
      then_Keeps (write_runtime env "critic-feedback.md" (text v.notes)) _ (write-Keeps env _ _)
        (λ _.
          then_Keeps (move env task.id active escalated) _ (move-Keeps env task.id active escalated)
            (λ _ w.
              then_Keeps (escalate_and_record env task.id (not_clean v) escalated_ending)
                (λ _. pure (stopped task.id))
                (escalate-Keeps env task.id (not_clean v) escalated_ending) (λ _ _. refl) _)))

  landed-Keeps : (hash : String) → Keeps (landed env task hash)
  unfolding landed
  landed-Keeps hash =
      then_Keeps (move env task.id active done) _ (move-Keeps env task.id active done) (λ _ _. refl)

  -- What git answered to the commit and the merge, and what was noted.
  abbrev pub IsLanded : Site → Merge → Type 0
  IsLanded site x =
      (env.commit_files site.worktree task.file_set ≡ ok x.commit)
      × (env.merge_after_gate site.worktree site.branch ≡ ok merged)
      × (x.worktree ≡ site.worktree)
      × (x.target ≡ site.branch)

  -- The branch check lets only the allowed branch through that the iteration began on.
  on_branch :
      (loop_branch cur : String)
      → off_branch env task loop_branch cur ≡ false
      → (cur ≡ loop_branch)
        × ((loop_branch == "main") ≡ false)
        × (env.allowed_branch loop_branch ≡ true)
  on_branch loop_branch cur on = ground (arith, eq_iff cur loop_branch)

  pub merge_answer-MergesOnly :
      (site : Site) (hash : String) (a : MergeResult)
      → env.commit_files site.worktree task.file_set ≡ ok hash
      → env.merge_after_gate site.worktree site.branch ≡ ok a
      → MergesOnly (IsLanded site) (merge_answer env task site hash a)
  unfolding merge_answer
  merge_answer-MergesOnly site hash merged c e w = inr (
    record { worktree = site.worktree; target = site.branch; commit = hash },
    landed-Keeps hash _,
    (c, e, refl, refl),
  )
  merge_answer-MergesOnly site hash conflict c e w =
      inl (park-Keeps escalated (merge_failed conflict) escalated_ending w)
  merge_answer-MergesOnly site hash (refused why) c e w =
      inl (park-Keeps escalated (merge_failed (refused why)) escalated_ending w)

  pub merge_stage-MergesOnly :
      (site : Site) → MergesOnly (IsLanded site) (merge_stage env task site)
  unfolding merge_stage
  merge_stage-MergesOnly site =
      then_MergesOnly (lift (env.commit_files site.worktree task.file_set)) _ (λ w. refl)
        (λ hash (_, c).
          then_MergesOnly (lift (env.merge_after_gate site.worktree site.branch))
            (merge_answer env task site hash) (λ w. refl)
            (λ a (_, e). merge_answer-MergesOnly site hash a c e))

  pub commit_stage-MergesOnly :
      (site : Site)
      → MergesOnly
          (λ x.
            (env.branch_at_commit ≡ ok site.branch)
            × ((site.branch == "main") ≡ false)
            × (env.allowed_branch site.branch ≡ true)
            × IsLanded site x)
          (commit_stage env task site)
  unfolding commit_stage
  commit_stage-MergesOnly site =
      then_MergesOnly (lift env.branch_at_commit) _ (λ w. refl)
        (λ cur (_, now).
          choose-MergesOnly (off_branch env task site.branch cur) _ (merge_stage env task site)
            (λ _ w. inl (park-Keeps escalated (branch_moved cur site.branch) escalated_ending w))
            (λ on w. elim (merge_stage-MergesOnly site w) [
              | inl same ↦ inl same
              | inr (x, more, git) ↦
                  let (here, not_main, allowed) = on_branch (site.branch) cur on in
                  inr (x, more, (now ∙ ap ok here, not_main, allowed, git))
            ]))

  pub decided-MergesOnly :
      (site : Site) (v : GateVerdict) (d : Decision)
      → (env.run_gate (gate_input task) site.worktree) ≡ ok v
      → v.decision ≡ d
      → MergesOnly (IsReleased env task site) (decided env task site v d)
  unfolding decided
  decided-MergesOnly site v retry e f w = inl (
      then_Keeps (move env task.id active pending) _ (move-Keeps env task.id active pending)
        (λ _ _. refl) w)
  decided-MergesOnly site v commit e f w = elim (commit_stage-MergesOnly site w) [
    | inl same ↦ inl same
    | inr (x, more, (same_branch, not_main, allowed, (committed, merges, from, into))) ↦ inr (
      x,
      more,
      record {
        gate = v;
        answered = e;
        commits = f;
        same_branch = same_branch;
        not_main = not_main;
        allowed = allowed;
        committed = committed;
        merges = merges;
        from_worktree = from;
        into_branch = into;
      },
    )
  ]
  decided-MergesOnly site v escalate e f w =
      inl (park-Keeps escalated (gate_refused v) escalated_ending w)

  pub gate_answer-MergesOnly :
      (site : Site) (answer : Result GateVerdict)
      → (env.run_gate (gate_input task) site.worktree) ≡ answer
      → MergesOnly (IsReleased env task site) (gate_answer env task site answer)
  unfolding gate_answer
  gate_answer-MergesOnly site (err x) e w = inl (
      park-Keeps escalated (gate_threw x (not (is_nil task.contract_zones_touched)))
        escalated_ending w)
  gate_answer-MergesOnly site (ok v) e w =
      decided-MergesOnly site v v.decision e refl
        (record w { draft = record (w.draft) { gate = some v } })
