-- ===== src/Gate/Run.antt =====
-- src/gate/gate.ts: `runGate`, with its early answer, its writes and its `finally`.
pub mod Laws
use autodev_harness.Common.{
  String, Bool, true, false, ◌&&◌, Option, none, some, List, [], ◌∷◌, ◌==◌, if◌then◌else◌, is_nil,
}
use autodev_harness.Gate.Zones.{
  Invariants, diff_added_removed_lines, exclude_declared_docs, exclude_declared_doc_paths,
  attribute_diff_lines, union_diff_named_paths,
}
use autodev_harness.Gate.Guards.{GuardRecipePair}
use autodev_harness.Gate.Monad.{
  Result, ok, err, escalate, empty_file_set, GateVerdict, FailedStep, GateInput, GateDeps, Log, M,
  ◌>>=◌, ◌>>◌, pure, lift,
}
use autodev_harness.Gate.Steps.{
  Scope, check_step, success_step, agent_ci_step, profile_step, constitution_step, zones_step,
  decide,
}

-- What a run leaves: its answer, the verdict that was handed to `writeVerdict`, and the failed
-- steps that were handed to `writeGateFeedback` (none of them clears the document).
pub record GateRun : Type 0 where
  pub outcome : Result GateVerdict
  pub verdict_write : Option GateVerdict
  pub feedback_write : Option (List FailedStep)

-- `!input.range && (!input.fileSet || input.fileSet.length === 0)`
abbrev pub has_no_scope : GateInput → Bool
has_no_scope input = (elim input.range [ none ↦ true | some r ↦ r == "" ]) && is_nil input.file_set

module _ (deps : GateDeps) where
  -- Computed once from the diff, before any step runs.
  abbrev pub scope_of : List String → String → Scope
  scope_of changed_files text = record {
    lines_by_file =
        exclude_declared_docs
          (attribute_diff_lines (deps.content_by_file text) (diff_added_removed_lines text))
          deps.doc_paths;
    changed_files =
        exclude_declared_doc_paths
          (union_diff_named_paths changed_files (deps.diff_named_paths text)) deps.doc_paths;
  }

  -- The body of the `try` behind its loaders, up to the verdict.
  unfoldable pub judge_loaded :
      GateInput → Invariants → List GuardRecipePair → List String × String → M GateVerdict
  judge_loaded input inv pairs resolved = do
    composer ← check_step deps
    success ← success_step deps input.success_commands
    ci ← agent_ci_step deps
    profile ← profile_step deps resolved.0
    constitution ← constitution_step deps inv resolved.0
    zones ← zones_step deps (scope_of resolved.0 resolved.1) pairs inv.contract_zones
    λ log. (
      ok (record {
        task_id = input.task_id;
        composer_green = composer;
        success_green = success;
        agent_ci_green = ci;
        profile_green = profile.0;
        constitution_touched = constitution;
        zones_touched = zones;
        decision = decide (composer && success && ci && profile.0) constitution zones;
        reasons = log.reasons;
        changed_files = resolved.0;
        profile_gates = profile.1;
      }),
      log,
    )

  unfoldable pub judge : GateInput → M GateVerdict
  unfolding judge_loaded
  judge input = do
    inv ← lift deps.load_invariants
    pairs ← lift deps.load_guard_pairs
    resolved ← lift deps.resolve_scope
    judge_loaded input inv pairs resolved

  -- `if (deps.writeVerdict) await deps.writeVerdict(...)`, and the verdict again.
  persist : GateVerdict → Result GateVerdict
  persist v = elim deps.write_verdict [
    | none ↦ ok v
    | some write ↦ elim (write v) [ ok _ ↦ ok v | err e ↦ err e ]
  ]

  abbrev handed {ℓ κ} : {A : Type ℓ} {B : Type κ} → Option B → A → Option A
  handed none a = none
  handed (some _) a = some a

  abbrev empty_verdict : GateInput → GateVerdict
  empty_verdict input = record {
    task_id = input.task_id;
    composer_green = false;
    success_green = false;
    agent_ci_green = true;
    profile_green = true;
    constitution_touched = [];
    zones_touched = [];
    decision = escalate;
    reasons = empty_file_set ∷ [];
    changed_files = [];
    profile_gates = [];
  }

  -- The `try` and its `catch`: the answer, and the verdict that was written.
  guarded_run : Result GateVerdict → Result GateVerdict × Option GateVerdict
  unfolding persist
  guarded_run (ok v) = (persist v, handed deps.write_verdict v)
  guarded_run (err e) = (err e, none)

  -- The `finally`: a failed write of the feedback rejects a run that answered, and never masks an
  -- earlier throw.
  with_feedback : List FailedStep → Result GateVerdict → Result GateVerdict
  with_feedback failed (err e) = err e
  with_feedback failed (ok v) = elim deps.write_gate_feedback [
    | none ↦ ok v
    | some write ↦ elim (write failed) [ ok _ ↦ ok v | err e ↦ err e ]
  ]

  abbrev pub judged : GateInput → Result GateVerdict × Log
  judged input = judge input (record { reasons = []; failed = [] })

  unfoldable pub run_gate : GateInput → GateRun
  unfolding guarded_run with_feedback
  run_gate input =
      if has_no_scope input
      then record {
        outcome = persist (empty_verdict input);
        verdict_write = handed deps.write_verdict (empty_verdict input);
        feedback_write = none;
      }
      else let tried = guarded_run (judged input).0 in
        record {
          outcome = with_feedback (judged input).1.failed tried.0;
          verdict_write = tried.1;
          feedback_write = handed deps.write_gate_feedback (judged input).1.failed;
        }
