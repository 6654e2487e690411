-- ===== src/Tests/Runs.antt =====
-- Runs of the conductor: a drain of one task, a run on main, an unattended run without a goal.
use autodev_harness.Common.{◌≤◌, ◌≡◌, ◌≢◌, refl, true, false, none, some, [], ◌==◌, inr, arith}
use autodev_harness.Util.Fallible.{ok}
use autodev_harness.Scheduler.Locks.{IsValid}
use autodev_harness.Conductor.Run.Options.{
  is_drift, is_north_star_silent, halt_drain, RunOptions, RunEnv, RunState, cut_off,
}
use autodev_harness.Util.Text.{is_blank, includes, starts_with}
use autodev_harness.Conductor.Run.Loop.{run}
use autodev_harness.Conductor.Run.Bounds.{run-calls}
use autodev_harness.Conductor.Run.Ends.{run_ends}
use autodev_harness.Conductor.Run.Laws.{run-IsValid, run-world}
use autodev_harness.Tests.Boards.{waiting-IsValid, waiting}
use autodev_harness.Tests.Iterations.{env, world}

drifting : is_drift "  Drift: off the goal" ≡ true
unfolding is_drift
drifting = refl

on_track : is_drift "ON-TRACK: no DRIFT: seen" ≡ false
unfolding is_drift
on_track = refl

stub : is_north_star_silent (some "# Goal\n<!-- north-star: unfilled -->") ≡ true
unfolding is_north_star_silent is_blank includes starts_with
stub = refl

-- The clock reads the number of iterations.
abbrev run_env : RunEnv
run_env = record {
  branch = ok "auto/dev";
  allowed_branch = λ b. b == "auto/dev";
  north_star = ok none;
  notice_fault = λ k. false;
  journal_fault = λ k. false;
  start = 0;
  now = λ k. k;
  max_session = 5;
  every_commits = 1;
  iteration = λ k. env;
  seen = λ k b. b;
  runtime_files = λ k. [];
  anti_drift = λ k n. ok "DRIFT: off the goal";
}

abbrev draining : RunOptions
draining = record {
  once = false;
  max_iterations = some 3;
  drain = true;
  on_drift = halt_drain;
  require_north_star = false;
}

abbrev unattended : RunOptions
unattended = record draining { require_north_star = true }

abbrev begin : RunState
begin = record {
  world = world waiting;
  iterations = 0;
  calls = 0;
  commits_since_drift = 0;
  windows = [];
  notices = [];
  journal = [];
  naps = [];
}

run-IsValid_example : IsValid (run run_env draining 6 begin).1.world.board
run-IsValid_example = run-IsValid run_env draining 6 begin (λ k b. refl) waiting-IsValid

run-calls_example : (run run_env draining 6 begin).1.calls ≤ 3
run-calls_example = run-calls run_env draining 3 refl 6 begin (omega arith) refl refl

run_ends_example : (run run_env draining 6 begin).0 ≢ ok cut_off
run_ends_example = run_ends run_env draining 5 refl 6 begin refl (omega arith)

-- The north star is silent.
run-world_example : (run run_env unattended 6 begin).1.world ≡ world waiting
unfolding is_north_star_silent
run-world_example = run-world run_env unattended 6 begin "auto/dev" refl (inr (inr refl))
