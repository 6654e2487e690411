-- ===== src/Conductor/Iteration/Releases.antt =====
-- Each stage of an iteration merges only what was reviewed and released.
pub mod Endings
use autodev_harness.Common.{
  ◌==◌, ℕ, zero, suc, String, Bool, true, false, not, Option, none, some, List, [], ◌≡◌, refl, inl,
  inr, arith, if◌then◌else◌, is_nil, ◌&&◌, ap, ◌-◌, eq_iff, ◌∷◌,
}
use autodev_harness.Util.Fallible.{Result, ok, err, pure, lift, ◌>>=◌, ◌>>◌}
use autodev_harness.Util.Fingerprint.{
  Snapshot, worker_touched, stray_changed, forbidden_touches, oracle_glob_touches,
}
use autodev_harness.Blackboard.{Task, QueueState, pending, active, escalated, quarantine}
use autodev_harness.Gate.Monad.{GateVerdict, Decision, commit, retry, escalate}
use autodev_harness.Conductor.State.{
  CriticResult, Site, Merge, OracleSet, Incident, Ending, IterationResult, Env, M, move,
  set_attempts, write_runtime, read_runtime, persist_verdict, escalate_and_record, Verdict,
  VerdictKind, clean, MergeResult, merged, conflict, refused, text, not_clean, no_verdict, too_big,
  needs_a_guard, is_blocked, set_rounds, set_critic, escalated_ending, quarantined, merge_failed,
  branch_moved, gate_refused, gate_threw, out_of_scope, oracle_touched, oracle_unresolved,
}
use autodev_harness.Conductor.Iteration.Stages.{
  stopped, park, throttled, merge_answer, merge_stage, commit_stage, off_branch, decided,
  gate_answer, gate_input, escalate_verdict, try_again, judge_not_clean, contract_risk,
  silent_critic, approved, on_kind, on_verdict, review_stage, fenced, harvested, on_status,
  report_stage, worker_stage, run_worker, report_text, round_with, rounds,
}
use autodev_harness.Conductor.Iteration.Merges.{
  Keeps, MergesOnly, then_Keeps, then_MergesOnly, choose-MergesOnly, move-Keeps, set_attempts-Keeps,
  write-Keeps, read-Keeps, persist-Keeps, escalate-Keeps, IsReleased, IsReviewed, IsApproved,
}
use autodev_harness.Conductor.Iteration.Releases.Endings.{
  park-Keeps, throttled-Keeps, silent_critic-Keeps, escalate_verdict-Keeps, merge_answer-MergesOnly,
  merge_stage-MergesOnly, commit_stage-MergesOnly, decided-MergesOnly, gate_answer-MergesOnly,
}

is_nil-eq : {A : Type 0} (xs : List A) → is_nil xs ≡ true → xs ≡ []
is_nil-eq [] e = refl
is_nil-eq (x ∷ xs) e = cc

both_true : (a b : Bool) → (a && b) ≡ true → (a ≡ true) × (b ≡ true)
both_true a b e = ground arith

module _ (env : Env) (task : Task) (P : Merge → Type 0) where
  -- The next round, if there is one, merges only under `P`.
  abbrev NextOnly : Option (M IterationResult) → Type 0
  NextOnly none = Unit
  NextOnly (some again) = MergesOnly P again

  try_again-MergesOnly :
      (r : ℕ) (next : Option (M IterationResult)) (v : Verdict)
      → NextOnly next
      → MergesOnly P (try_again env task r next v)
  unfolding try_again
  try_again-MergesOnly r none v h w = inl (escalate_verdict-Keeps env task r v w)
  try_again-MergesOnly r (some again) v h w =
      then_MergesOnly (write_runtime env "critic-feedback.md" (text v.notes)) (λ _. again)
        (write-Keeps env _ _) (λ _ _. h) w

  judge_not_clean-MergesOnly :
      (r : ℕ) (next : Option (M IterationResult)) (v : Verdict) (diff : String)
      → NextOnly next
      → MergesOnly P (judge_not_clean env task r next v diff)
  unfolding judge_not_clean
  judge_not_clean-MergesOnly r next v diff h =
      then_MergesOnly (lift (env.zones_in_diff diff)) _ (λ w. refl)
        (λ zones _.
          choose-MergesOnly (contract_risk task zones v) (escalate_verdict env task r v)
            (try_again env task r next v) (λ _ w. inl (escalate_verdict-Keeps env task r v w))
            (λ _. try_again-MergesOnly r next v h))

  module _ (attempts : ℕ) (site : Site) where
    approved-MergesOnly :
        (r : ℕ) (v : Verdict)
        → ((x : Merge) → IsReleased env task site x → P x)
        → MergesOnly P (approved env task attempts site r v)
    unfolding approved
    approved-MergesOnly r v h =
        then_MergesOnly (persist_verdict env v)
          (λ _.
            set_rounds r
            >> set_critic v
            >> gate_answer env task site (env.run_gate (gate_input task) site.worktree))
          (persist-Keeps env v)
          (λ _ _ w.
            elim (gate_answer-MergesOnly env task site
              (env.run_gate (gate_input task) site.worktree) refl
              (record w { draft = record (w.draft) { rounds = r; critic = some v } })) [
                | inl same ↦ inl same
                | inr (x, more, released) ↦ inr (x, more, h x released)
              ])

    on_kind-MergesOnly :
        (r : ℕ) (next : Option (M IterationResult)) (diff : String) (v : Verdict)
        → (k : VerdictKind) → NextOnly next
        → (k ≡ clean → (x : Merge) → IsReleased env task site x → P x)
        → MergesOnly P (on_kind env task attempts site r next diff v k)
    unfolding on_kind
    on_kind-MergesOnly r next diff v clean n h = approved-MergesOnly r v (h refl)
    on_kind-MergesOnly r next diff v _ n h = judge_not_clean-MergesOnly r next v diff n

    on_verdict-MergesOnly :
        (r : ℕ) (next : Option (M IterationResult)) (diff : String) (o : Option Verdict)
        → (limited : Bool) → NextOnly next
        → ((v : Verdict)
            → o ≡ some v
            → v.verdict ≡ clean
            → (x : Merge) → IsReleased env task site x
            → P x)
        → MergesOnly P (on_verdict env task attempts site r next diff o limited)
    unfolding on_verdict
    on_verdict-MergesOnly r next diff none limited n h =
        choose-MergesOnly limited (throttled env task attempts) (silent_critic env task r)
          (λ _ w. inl (throttled-Keeps env task attempts w))
          (λ _ w. inl (silent_critic-Keeps env task r w))
    on_verdict-MergesOnly r next diff (some v) limited n h =
        on_kind-MergesOnly r next diff v v.verdict n (h v refl)

    review_stage-MergesOnly :
        (r : ℕ) (next : Option (M IterationResult))
        → NextOnly next
        → ((diff : String)
            → env.worktree_diff site.worktree task.file_set r ≡ ok diff
            → (cr : CriticResult) → env.critic_run r diff ≡ ok cr
            → (v : Verdict) → cr.verdict ≡ some v
            → v.verdict ≡ clean
            → (x : Merge) → IsReleased env task site x
            → P x)
        → MergesOnly P (review_stage env task attempts site r next)
    unfolding review_stage
    review_stage-MergesOnly r next n h =
        then_MergesOnly (lift (env.worktree_diff site.worktree task.file_set r)) _ (λ w. refl)
          (λ diff (_, d).
            then_MergesOnly (write_runtime env "diff.patch" (text diff)) _ (write-Keeps env _ _)
              (λ _ _.
                then_MergesOnly (write_runtime env "loop-branch" (text site.branch)) _
                  (write-Keeps env _ _)
                  (λ _ _.
                    then_MergesOnly (lift (env.critic_run r diff)) _ (λ w. refl)
                      (λ cr (_, c).
                        on_verdict-MergesOnly r next diff cr.verdict cr.rate_limited n
                          (h diff d cr c)))))

    fenced-MergesOnly :
        (r : ℕ) (next : Option (M IterationResult)) (set : OracleSet) (base after : Snapshot)
        → NextOnly next
        → env.resolve_oracle_set r ≡ ok set
        → env.changed_before site.worktree r ≡ ok base
        → env.changed_after site.worktree r ≡ ok after
        → (IsReviewed env task site r → (x : Merge) → IsReleased env task site x → P x)
        → MergesOnly P (fenced env task attempts site r next set base after)
    unfolding fenced
    fenced-MergesOnly r next set base after n resolved began ended h =
        let touched = worker_touched base after in
        let drift =
          worker_touched (env.oracle_before site.worktree r set)
            (env.oracle_after site.worktree r set) in
        let hits = oracle_glob_touches touched set.globs in
        let stray = stray_changed touched task.file_set env.dirty_fence_ignore in
        let forbidden = forbidden_touches touched task.forbidden_paths in
        choose-MergesOnly (is_nil drift && is_nil hits) _ _
          (λ oracle.
            choose-MergesOnly (is_nil stray && is_nil forbidden)
              (review_stage env task attempts site r next) _
              (λ scope.
                let (e1, e2) = both_true _ _ oracle in
                let (e3, e4) = both_true _ _ scope in
                review_stage-MergesOnly r next n (λ diff d cr c v g k. h (record {
                  set = set;
                  base = base;
                  after = after;
                  diff = diff;
                  answer = cr;
                  verdict = v;
                  resolved = resolved;
                  began = began;
                  ended = ended;
                  no_drift = is_nil-eq drift e1;
                  no_oracle = is_nil-eq hits e2;
                  in_scope = is_nil-eq stray e3;
                  permitted = is_nil-eq forbidden e4;
                  diffed = d;
                  judged = c;
                  given = g;
                  cleared = k;
                })))
              (λ _ w.
                inl (
                  park-Keeps env task escalated (out_of_scope stray forbidden) escalated_ending w)))
          (λ _ w.
            inl (park-Keeps env task escalated (oracle_touched drift hits) escalated_ending w))

    -- The escalations of a report, and the fences behind them.
    on_status-MergesOnly :
        (r : ℕ) (next : Option (M IterationResult)) (set : OracleSet) (base : Snapshot)
        → (report : String) → NextOnly next
        → env.resolve_oracle_set r ≡ ok set
        → env.changed_before site.worktree r ≡ ok base
        → (IsReviewed env task site r → (x : Merge) → IsReleased env task site x → P x)
        → MergesOnly P (on_status env task attempts site r next set base report)
    unfolding on_status
    on_status-MergesOnly r next set base report n resolved began h =
        let status = env.status_of report in
        let go_on : M IterationResult = lift (env.changed_after site.worktree r) >>= λ after.
        fenced env task attempts site r next set base after in
        let blocked_or : M IterationResult =
          if status == "BLOCKED"
          then park env task escalated (is_blocked report) escalated_ending
          else go_on in
        let guard_or : M IterationResult =
          if status == "NEEDS_GUARD"
          then park env task escalated (needs_a_guard report) escalated_ending
          else blocked_or in
        choose-MergesOnly (status == "TOO_BIG")
          (park env task quarantine (too_big report) quarantined) guard_or
          (λ _ w. inl (park-Keeps env task quarantine (too_big report) quarantined w))
          (λ _.
            choose-MergesOnly (status == "NEEDS_GUARD") _ blocked_or
              (λ _ w. inl (park-Keeps env task escalated (needs_a_guard report) escalated_ending w))
              (λ _.
                choose-MergesOnly (status == "BLOCKED") _ go_on
                  (λ _ w.
                    inl (park-Keeps env task escalated (is_blocked report) escalated_ending w))
                  (λ _.
                    then_MergesOnly (lift (env.changed_after site.worktree r)) _ (λ w. refl)
                      (λ after (_, ended).
                        fenced-MergesOnly r next set base after n resolved began ended h))))

    harvested-Keeps : (o : Option String) → Keeps (harvested env task attempts site o)
    unfolding harvested
    harvested-Keeps none w = refl
    harvested-Keeps (some report) w = write-Keeps env _ _ w

    report_stage-MergesOnly :
        (r : ℕ) (next : Option (M IterationResult)) (set : OracleSet) (base : Snapshot)
        → NextOnly next
        → env.resolve_oracle_set r ≡ ok set
        → env.changed_before site.worktree r ≡ ok base
        → (IsReviewed env task site r → (x : Merge) → IsReleased env task site x → P x)
        → MergesOnly P (report_stage env task attempts site r next set base)
    unfolding report_stage
    report_stage-MergesOnly r next set base n resolved began h =
        then_MergesOnly (lift (env.harvest site.worktree r)) _ (λ w. refl)
          (λ moved _.
            then_MergesOnly (harvested env task attempts site moved) _ (harvested-Keeps moved)
              (λ _ _.
                then_MergesOnly (read_runtime env "worker-report.md") _ (read-Keeps env _)
                  (λ report _.
                    on_status-MergesOnly r next set base (report_text report) n resolved began h)))

    worker_stage-MergesOnly :
        (r : ℕ) (next : Option (M IterationResult)) (set : OracleSet) (base : Snapshot)
        → NextOnly next
        → env.resolve_oracle_set r ≡ ok set
        → env.changed_before site.worktree r ≡ ok base
        → (IsReviewed env task site r → (x : Merge) → IsReleased env task site x → P x)
        → MergesOnly P (worker_stage env task attempts site r next set base)
    unfolding worker_stage
    worker_stage-MergesOnly r next set base n resolved began h =
        let late : M IterationResult = move env task.id active pending >> pure (stopped task.id) in
        let on = report_stage env task attempts site r next set base in
        then_MergesOnly (read_runtime env "critic-feedback.md") _ (read-Keeps env _) (λ critic _.
          then_MergesOnly (read_runtime env "gate-feedback.md") _ (read-Keeps env _) (λ gate _.
            then_MergesOnly (run_worker env site.worktree r critic gate) _ (λ w. refl)
              (λ wr _.
                choose-MergesOnly wr.rate_limited (throttled env task attempts)
                  (if wr.timed_out then late else on)
                  (λ _ w. inl (throttled-Keeps env task attempts w))
                  (λ _.
                    choose-MergesOnly wr.timed_out late on
                      (λ _ w. inl (
                        then_Keeps (move env task.id active pending) _
                          (move-Keeps env task.id active pending) (λ _ _. refl) w))
                      (λ _. report_stage-MergesOnly r next set base n resolved began h)))))

    round_with-MergesOnly :
        (r : ℕ) (next : Option (M IterationResult)) (set : Result OracleSet)
        → NextOnly next
        → env.resolve_oracle_set r ≡ set
        → (IsReviewed env task site r → (x : Merge) → IsReleased env task site x → P x)
        → MergesOnly P (round_with env task attempts site r next set)
    unfolding round_with
    round_with-MergesOnly r next (err e) n resolved h w =
        inl (park-Keeps env task escalated (oracle_unresolved e) escalated_ending w)
    round_with-MergesOnly r next (ok set) n resolved h w =
        then_MergesOnly (lift (env.changed_before site.worktree r)) _ (λ v. refl)
          (λ base (_, began). worker_stage-MergesOnly r next set base n resolved began h) w

module _ (env : Env) (task : Task) where
  -- The loop over rounds.
  pub rounds-MergesOnly :
      (attempts : ℕ) (site : Site) (left r : ℕ)
      → MergesOnly (IsApproved env task site) (rounds env task attempts site left r)
  unfolding rounds
  rounds-MergesOnly attempts site zero r =
      round_with-MergesOnly env task _ attempts site r none (env.resolve_oracle_set r) tt refl
        (λ v x l. record { round = r; reviewed = v; released = l })
  rounds-MergesOnly attempts site (suc left) r =
      round_with-MergesOnly env task _ attempts site r
        (some (rounds env task attempts site left (suc r))) (env.resolve_oracle_set r)
        (rounds-MergesOnly attempts site left (suc r)) refl
        (λ v x l. record { round = r; reviewed = v; released = l })
