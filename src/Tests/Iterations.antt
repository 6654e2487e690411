-- ===== src/Tests/Iterations.antt =====
-- One round that is approved and merged.
use autodev_harness.Common.{String, true, false, none, some, [], ◌∷◌, ◌≡◌, refl, ◌==◌}
use autodev_harness.Util.Fallible.{ok}
use autodev_harness.Blackboard.{Board, unsafe_segment}
use autodev_harness.Gate.Monad.{GateVerdict, commit}
use autodev_harness.Conductor.State.{
  Site, Worktree, Verdict, clean, merged, World, IterationResult, Env, abandoned,
}
use autodev_harness.Conductor.Iteration.{in_worktree, run_iteration}
use autodev_harness.Conductor.Iteration.Leaving.{HasLeft}
use autodev_harness.Conductor.Iteration.Clears.{in_worktree-HasLeft}
use autodev_harness.Scheduler.Locks.{Reach, IsValid}
use autodev_harness.Conductor.Iteration.Refines.{run_iteration-Reach, run_iteration-IsValid}
use autodev_harness.Tests.Boards.{waiting-IsValid, unordered, waiting, running, first}

abbrev approving : GateVerdict
approving = record {
  task_id = "t1";
  composer_green = true;
  success_green = true;
  agent_ci_green = true;
  profile_green = true;
  constitution_touched = [];
  zones_touched = [];
  decision = commit;
  reasons = [];
  changed_files = "src/a.ts" ∷ [];
  profile_gates = [];
}

abbrev blessing : Verdict
blessing = record { verdict = clean; broken_contracts = []; notes = ""; confidence = 900 }

abbrev tree : String → Worktree
tree id = record { path = "/wt/t1"; branch = "task/t1"; task_id = id }

-- The worker changes `src/a.ts`, the critic finds it clean, and the gate commits.
abbrev pub env : Env
env = record {
  before = unordered;
  max_attempts = 3;
  retry_max = 1;
  remove_fault = false;
  allowed_branch = λ b. b == "auto/dev";
  dirty_fence_ignore = [];
  status_of = λ report. report;
  get_attempts_fault = false;
  set_attempts_fault = λ n. false;
  move_fault = λ n from to. false;
  write_fault = λ n name. false;
  read_fault = λ name. false;
  escalate_fault = false;
  current_branch = ok "auto/dev";
  create_worktree = λ id branch. ok (tree id);
  resolve_oracle_set = λ r. ok (record { literals = []; globs = [] });
  changed_before = λ wt r. ok [];
  worker_run = λ wt r critic gate. ok (record { rate_limited = false; timed_out = false });
  harvest = λ wt r. ok (some "DONE");
  changed_after = λ wt r. ok (("src/a.ts", "f1") ∷ []);
  oracle_before = λ wt r set. [];
  oracle_after = λ wt r set. [];
  worktree_diff = λ wt paths r. ok "+x";
  critic_run = λ r diff. ok (record { verdict = some blessing; rate_limited = false });
  zones_in_diff = λ diff. ok [];
  run_gate = λ input wt. ok approving;
  branch_at_commit = ok "auto/dev";
  commit_files = λ wt paths. ok "abc";
  merge_after_gate = λ wt target. ok merged;
}

abbrev pub world : Board → World
world board = record {
  board = board;
  attempts = [];
  runtime = [];
  escalations = [];
  draft = record {
    outcome = abandoned;
    escalation = none;
    commit = none;
    rounds = 0;
    attempts = 0;
    critic = none;
    gate = none;
  };
  ledger = none;
  worker_runs = 0;
  merges = [];
  worktrees = 0;
  renames = 0;
  writes = 0;
}

run_iteration-Reach_example :
    Reach env.before waiting (run_iteration env waiting (world waiting)).1.board
run_iteration-Reach_example = run_iteration-Reach env (world waiting)

run_iteration-IsValid_example : IsValid (run_iteration env waiting (world waiting)).1.board
run_iteration-IsValid_example = run_iteration-IsValid env (world waiting) waiting-IsValid

abbrev site : Site
site = record { branch = "auto/dev"; worktree = tree "t1" }

in_worktree-HasLeft_example :
    ((a : IterationResult) × ((in_worktree env first 1 site (world running)).0 ≡ ok a))
    × HasLeft "t1" (in_worktree env first 1 site (world running)).1
unfolding unsafe_segment
in_worktree-HasLeft_example = in_worktree-HasLeft env first 1 site (world running) (λ n. refl) refl
