-- ===== src/Gate/Steps.antt =====
-- src/gate/gate.ts: the steps of `runGate`, in its order.
pub mod Tools
pub mod Coverage
use autodev_harness.Common.{
  String, Bool, true, false, not, ◌&&◌, none, some, List, [], ◌∷◌, ◌++◌, map, nat_eq, if◌then◌else◌,
  any, every, filter, is_nil,
}
use autodev_harness.Util.Match.{glob_match}
use autodev_harness.Util.Text.{is_blank, join}
use autodev_harness.Gate.Zones.{
  ContractZone, Invariants, DiffFileContent, zone_touched, zone_touched_strings, zone_scoped_lines,
}
use autodev_harness.Gate.Guards.{
  GuardRow, GuardRecipePair, is_blessed, select_guard_for_value, select_guard_for_zone,
}
use autodev_harness.Gate.Monad.{
  command_unavailable, err, Decision, commit, retry, escalate, ZoneResult, green, red, skipped,
  ProfileGateRecord, Reason, check_failed, success_command_failed, agent_ci_reason, reason_unless,
  profile_gate_failed, constitution_changed, not_auto_guardable, value_uncovered, guard_not_blessed,
  guard_not_red, zone_uncovered, zone_not_red, zone_not_blessed, check_command, success_command,
  agent_ci, profile_gate, FailedStep, available, unknown, unavailable, GateDeps, M, ◌>>=◌, ◌>>◌,
  pure, lift, reason, failed_step,
}

abbrev failure : Reason → FailedStep → M Bool
failure r f = do reason r; failed_step f; pure false

abbrev reasons_of : List Reason → M (Unit {0})
reasons_of [] = pure tt
reasons_of (r ∷ rs) = do reason r; reasons_of rs

-- The zone check's arguments, computed once: the sections that no declaration exempts, and the
-- changed files with every path that the diff names.
pub record Scope : Type 0 where
  pub lines_by_file : List DiffFileContent
  pub changed_files : List String

-- The guards that cover a zone's touched values, and the values that none covers.
abbrev pub Covers : Type 0
Covers = List GuardRow × List String

module _ (deps : GateDeps) where
  -- 1. the check command
  unfoldable pub check_step : M Bool
  check_step = elim deps.run_check [
    | none ↦ pure true
    | some run ↦ do
      r ← lift run
      if r.0
          then pure true
          else failure (check_failed (r.1).exit_code) (record {
            label = check_command;
            exit_code = some (r.1).exit_code;
            output = (r.1).output;
          })
  ]

  -- the refusal of a command that is not there
  refuse_unavailable : String → M (Unit {0})
  refuse_unavailable cmd = elim deps.command_availability [
    | none ↦ pure tt
    | some ask ↦ do
      report ← lift (ask cmd)
      elim report [
        | available ↦ pure tt
        | unknown ↦ pure tt
        | unavailable why ↦ lift (err (command_unavailable why))
      ]
  ]

  run_command : String → M Bool
  unfolding refuse_unavailable
  run_command cmd = do
    refuse_unavailable cmd
    run ← lift (deps.run_success_command cmd)
    if nat_eq run.exit_code 0
        then pure true
        else failure (success_command_failed run.exit_code cmd) (record {
          label = success_command cmd;
          exit_code = some run.exit_code;
          output = run.output;
        })

  -- 1b. the success commands, all of them
  unfoldable pub success_step : List String → M Bool
  unfolding run_command
  success_step [] = pure true
  success_step (cmd ∷ cmds) =
      let rest = success_step cmds in
      if is_blank cmd
      then rest
      else do green_here ← run_command cmd; green_later ← rest; pure (green_here && green_later)

  -- 1c. agent-ci
  unfoldable pub agent_ci_step : M Bool
  agent_ci_step = elim deps.run_agent_ci [
    | none ↦ pure true
    | some run ↦ do
      ci ← lift run
      if ci.0 then pure true else do
        reasons_of (map agent_ci_reason ci.1)
        failed_step (record { label = agent_ci; exit_code = none; output = join "\n" ci.1 })
        pure false
  ]

  -- the loop over the profile gates' records
  profile_loop : List ProfileGateRecord → M Bool
  profile_loop [] = pure true
  profile_loop (r ∷ rs) =
      let rest = profile_loop rs in
      elim r.status [
        | green ↦ rest
        | skipped ↦ rest
        | red ↦ do
          reason (profile_gate_failed r.id r.exit_code)
          failed_step
              (record { label = profile_gate r.id; exit_code = r.exit_code; output = r.output })
          later ← rest
          pure false
      ]

  -- 1d. the profile gates
  unfoldable pub profile_step : List String → M (Bool × List ProfileGateRecord)
  unfolding profile_loop
  profile_step changed_files = elim deps.run_profile_gates [
    | none ↦ pure (true, [])
    | some run ↦ do
      gates ← lift (run changed_files)
      green_all ← profile_loop gates
      pure (green_all, gates)
  ]

  -- 2. the constitution
  unfoldable pub constitution_touched : Invariants → List String → List String
  constitution_touched inv changed_files =
      let globs = inv.constitution_globs ++ deps.constitution_paths in
      filter (λ f. any (λ g. glob_match g f) globs) changed_files

  unfoldable pub constitution_step : Invariants → List String → M (List String)
  unfolding constitution_touched
  constitution_step inv changed_files =
      let touched = constitution_touched inv changed_files in
      if is_nil touched
      then pure touched
      else do reason (constitution_changed touched); pure touched

  cover_values : ContractZone → List GuardRecipePair → List String → M Covers
  cover_values zone pairs [] = pure ([], [])
  cover_values zone pairs (s ∷ rest) =
      let later = cover_values zone pairs rest in
      elim (select_guard_for_value pairs s) [
        | none ↦ do reason (value_uncovered zone.id s); c ← later; pure (c.0, s ∷ c.1)
        | some g ↦ do c ← later; pure (g ∷ c.0, c.1)
      ]

  -- Both tests of every guard, with no short cut: all blessed, and all red on mutation.
  judge_guards : ContractZone → List GuardRow → M (Bool × Bool)
  judge_guards zone [] = pure (true, true)
  judge_guards zone (g ∷ rest) =
      let later = judge_guards zone rest in
      do
        reason_unless (is_blessed g) (guard_not_blessed zone.id g.contract_id)
        red_now ← lift (deps.guard_still_red g)
        reason_unless red_now (guard_not_red zone.id g.contract_id)
        r ← later
        pure (is_blessed g && r.0, red_now && r.1)

  abbrev bare_result : ContractZone → ZoneResult
  bare_result zone = record {
    id = zone.id;
    auto_guardable = zone.auto_guardable;
    guarded = false;
    guard_test = [];
    mutation_passed = false;
    blessed = false;
    touched_strings = [];
    uncovered_strings = [];
  }

  -- A touched zone with enumerated values: per-value coverage.
  judge_values : ContractZone → List GuardRecipePair → List String → M ZoneResult
  unfolding cover_values judge_guards
  judge_values zone pairs touched = do
    c ← cover_values zone pairs touched
    if is_nil c.1
        then (do
          r ← judge_guards zone c.0
          pure (record (bare_result zone) {
            touched_strings = touched;
            guarded = true;
            guard_test = map (λ g. g.guard_test) c.0;
            blessed = r.0;
            mutation_passed = r.1;
          }))
        else pure (record (bare_result zone) { touched_strings = touched; uncovered_strings = c.1 })

  -- A zone that is touched by a path or a pattern alone: the zone's guard.
  judge_zone : ContractZone → List GuardRecipePair → M ZoneResult
  judge_zone zone pairs = elim (select_guard_for_zone pairs zone.id) [
    | none ↦ do reason (zone_uncovered zone.id); pure (bare_result zone)
    | some cover ↦ do
      red_now ← lift (deps.guard_still_red cover)
      if red_now
          then (if is_blessed cover then pure tt else reason (zone_not_blessed zone.id))
          else reason (zone_not_red zone.id)
      pure (record (bare_result zone) {
        guarded = true;
        guard_test = cover.guard_test ∷ [];
        blessed = is_blessed cover;
        mutation_passed = red_now;
      })
  ]

  -- Per-value coverage first, and the zone's guard where no value is enumerated.
  judge_touched : ContractZone → List GuardRecipePair → List String → M ZoneResult
  unfolding judge_values judge_zone
  judge_touched zone pairs [] = judge_zone zone pairs
  judge_touched zone pairs (v ∷ vs) = judge_values zone pairs (v ∷ vs)

  -- The body of the loop for a touched zone.
  zone_step : ContractZone → List GuardRecipePair → List String → M ZoneResult
  unfolding judge_touched
  zone_step zone pairs lines =
      if not zone.auto_guardable
      then (do reason (not_auto_guardable zone.id zone.why); pure (bare_result zone))
      else judge_touched zone pairs (zone_touched_strings zone lines)

  abbrev pub touches : Scope → ContractZone → Bool
  touches scope zone =
      zone_touched deps.lower deps.regex zone scope.changed_files
        (zone_scoped_lines zone scope.lines_by_file)

  -- 3. per-zone coverage
  unfoldable pub zones_step : Scope → List GuardRecipePair → List ContractZone → M (List ZoneResult)
  unfolding zone_step
  zones_step scope pairs [] = pure []
  zones_step scope pairs (zone ∷ zones) =
      let later = zones_step scope pairs zones in
      if touches scope zone
      then (do
        z ← zone_step zone pairs (zone_scoped_lines zone scope.lines_by_file)
        zs ← later
        pure (z ∷ zs))
      else later

-- 4. the decision
abbrev pub zone_passes : ZoneResult → Bool
zone_passes z = z.auto_guardable && z.guarded && z.mutation_passed && z.blessed

unfoldable pub decide : Bool → List String → List ZoneResult → Decision
decide all_green constitution zones =
    if not all_green
    then retry
    else if not (is_nil constitution)
    then escalate
    else if every zone_passes zones
    then commit
    else escalate
