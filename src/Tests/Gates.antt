-- ===== src/Tests/Gates.antt =====
-- A gate whose tools are green, on a diff that touches a guarded value of a contract zone.
use autodev_harness.Common.{◌==◌, true, false, none, some, [], ◌∷◌, ◌≡◌, refl}
use autodev_harness.Util.Text.{is_blank, includes}
use autodev_harness.Util.Match.{glob_match}
use autodev_harness.Util.Glob.{to_slashes}
use autodev_harness.Gate.Zones.{
  zone_touched, exclude_declared_doc_paths, union_diff_named_paths, zone_scoped_lines,
  exclude_declared_docs, attribute_diff_lines, diff_added_removed_lines, zone_touched_strings,
  ContractZone,
}
use autodev_harness.Gate.Guards.{select_guard_for_value, is_blessed, GuardRow, GuardRecipePair}
use autodev_harness.Gate.Monad.{
  ok, commit, escalate, GateVerdict, GateInput, GateDeps, empty_file_set,
}
use autodev_harness.Gate.Steps.{
  decide, check_step, success_step, agent_ci_step, profile_step, constitution_step, zones_step,
}
use autodev_harness.Gate.Mutation.{
  MutationEnv, MutationRecipe, Target, lacks_field, mutated_line, mutation_check, check_body,
  mutate, write_file, restore_unless,
}
use autodev_harness.Gate.Mutation.Laws.{Baseline, mutation_check-content, mutation_check-passed}
use autodev_harness.Gate.Run.{judge, judge_loaded, run_gate}
use autodev_harness.Gate.Run.Laws.{
  ToolsPass, HasScope, ContractHolds, IsJudged, run_gate-IsJudged, run_gate-commit,
}

abbrev zone : ContractZone
zone = record {
  id = "Z1";
  why = "public keys";
  auto_guardable = true;
  path_globs = [];
  grep_patterns = [];
  exact_strings = "user_id" ∷ [];
}

abbrev guard : GuardRow
guard = record {
  contract_id = "C1";
  contract_value = "user_id";
  guard_test = "keys.test.ts";
  recipe = "keys.json";
  mutation_verified = "yes";
  blessed_by = "ann";
  date = "2026-07-01";
}

abbrev pair : GuardRecipePair
pair = record {
  guard = guard;
  recipe = record {
    zone_id = some "Z1";
    contract_id = some "C1";
    file = none;
    locator = none;
    canonical_value = some "user_id";
    mutated_value = some "user_ix";
    guard_test = some "keys.test.ts";
  };
}

abbrev deps : GateDeps
deps = record {
  lower = λ s. s;
  regex = λ s. none;
  content_by_file = λ text. none;
  diff_named_paths = λ text. none;
  load_invariants =
      ok (record { contract_zones = zone ∷ []; constitution_globs = "docs/*.md" ∷ [] });
  load_guard_pairs = ok (pair ∷ []);
  resolve_scope = ok ("src/a.ts" ∷ [], "+user_id");
  run_check = some (ok (true, record { exit_code = 0; output = "" }));
  run_success_command = λ c. ok (record { exit_code = 0; output = "" });
  command_availability = none;
  guard_still_red = λ g. ok true;
  run_agent_ci = none;
  run_profile_gates = none;
  constitution_paths = [];
  doc_paths = [];
  write_verdict = none;
  write_gate_feedback = none;
}

abbrev input : GateInput
input = record {
  task_id = "t1";
  file_set = "src/a.ts" ∷ [];
  range = none;
  success_commands = "npm test" ∷ [];
}

abbrev verdict : GateVerdict
verdict = record {
  task_id = "t1";
  composer_green = true;
  success_green = true;
  agent_ci_green = true;
  profile_green = true;
  constitution_touched = [];
  zones_touched =
      record {
        id = "Z1";
        auto_guardable = true;
        guarded = true;
        guard_test = "keys.test.ts" ∷ [];
        mutation_passed = true;
        blessed = true;
        touched_strings = "user_id" ∷ [];
        uncovered_strings = [];
      }
      ∷ [];
  decision = commit;
  reasons = [];
  changed_files = "src/a.ts" ∷ [];
  profile_gates = [];
}

answered : (run_gate deps input).outcome ≡ ok verdict
unfolding run_gate judge judge_loaded check_step success_step agent_ci_step profile_step
    constitution_step zones_step is_blank glob_match to_slashes zone_touched
    exclude_declared_doc_paths union_diff_named_paths zone_scoped_lines exclude_declared_docs
    attribute_diff_lines diff_added_removed_lines includes zone_touched_strings
    select_guard_for_value is_blessed decide
answered = refl

run_gate-IsJudged_example : IsJudged deps input verdict
run_gate-IsJudged_example = run_gate-IsJudged deps input verdict refl answered

run_gate-commit_example :
    HasScope deps input
    × ((j : IsJudged deps input verdict) × ToolsPass deps input j.changed
        × ContractHolds deps input j.inv j.pairs j.changed j.text)
run_gate-commit_example = run_gate-commit deps input verdict answered refl

abbrev bare : GateInput
bare = record input { file_set = [] }

abbrev refusal : GateVerdict
refusal = record {
  task_id = "t1";
  composer_green = false;
  success_green = false;
  agent_ci_green = true;
  profile_green = true;
  constitution_touched = [];
  zones_touched = [];
  decision = escalate;
  reasons = empty_file_set ∷ [];
  changed_files = [];
  profile_gates = [];
}

-- The file holds the value `3`; the guard is red once it is mutated.
abbrev mutation_env : MutationEnv
mutation_env = record {
  exists = true;
  decode = λ s. s;
  encode = λ s. s;
  replace_all = λ pattern replacement within. "x = 4";
  run_guard_test = λ n content. ok (content == "x = 3");
  write_fault = λ n. false;
}

abbrev recipe : MutationRecipe
recipe = record {
  file = "src/x.ts";
  locator = "x = 3";
  canonical_value = "3";
  mutated_value = "4";
  guard_test = "x.test.ts";
}

abbrev target : Target
target = record { content = "x = 3"; writes = 0; runs = 0; restored = false }

mutation_check-content_example : (mutation_check mutation_env recipe target).1.content ≡ "x = 3"
mutation_check-content_example = mutation_check-content mutation_env recipe target (λ n. refl)

mutation_check-passed_example :
    (lacks_field recipe ≡ false)
    × (mutation_env.exists ≡ true)
    × ((mutated_line mutation_env recipe == recipe.locator) ≡ false)
    × Baseline mutation_env recipe target
unfolding mutation_check check_body mutate write_file restore_unless includes
mutation_check-passed_example = mutation_check-passed mutation_env recipe target refl
