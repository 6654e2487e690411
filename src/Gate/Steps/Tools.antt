-- ===== src/Gate/Steps/Tools.antt =====
-- What the tool steps' answers say of the tools.
use mathlib.Core.Path.{subst}
use autodev_harness.Common.{
  String, Bool, true, false, Option, none, some, List, [], ◌∷◌, ◌++◌, every, All, ◌≡◌, ◌≢◌, ◌↔◌,
  refl, arith, Bool-cases, Option-cases, inl, inr,
}
use autodev_harness.Util.Text.{is_blank}
use autodev_harness.Gate.Zones.{Invariants}
use autodev_harness.Gate.Monad.{
  Result, ok, err, red, ProfileGateRecord, CommandRun, GateDeps, Log, and_then-eq-ok, and_then_ok,
  Result-cases, pure, profile_gate, FailedStep, profile_gate_failed,
}
use autodev_harness.Gate.Steps.{
  check_step, run_command, success_step, agent_ci_step, profile_loop, profile_step,
  constitution_touched, constitution_step,
}

-- A tool that is off, or that answers green.
abbrev pub Passes : {A : Type 0} → Option (Result (Bool × A)) → Type 0
Passes none = Unit
Passes (some (ok r)) = r.0 ≡ true
Passes (some (err e)) = ⊥

module _ (deps : GateDeps) where
  -- A command that runs and exits with 0.
  abbrev pub Succeeds : String → Type 0
  Succeeds cmd = (r : CommandRun) × (deps.run_success_command cmd ≡ ok r) × (r.exit_code ≡ 0)

  pub check_step_iff :
      (s : Log) (b : Bool) → (check_step deps s).0 ≡ ok b → (b ≡ true) ↔ Passes deps.run_check
  unfolding check_step
  check_step_iff s b e = ground arith

  pub agent_ci_step_iff :
      (s : Log) (b : Bool) → (agent_ci_step deps s).0 ≡ ok b → (b ≡ true) ↔ Passes deps.run_agent_ci
  unfolding agent_ci_step
  agent_ci_step_iff s b e = ground arith

  run_command_iff :
      (cmd : String) (s : Log) (b : Bool)
      → (run_command deps cmd s).0 ≡ ok b
      → (b ≡ true) ↔ Succeeds cmd
  unfolding run_command
  run_command_iff cmd s b e = ground arith

  -- The commands that are not blank.
  abbrev pub AllSucceed : List String → Type 0
  AllSucceed = All (λ cmd. is_blank cmd ≡ false → Succeeds cmd)

  pub success_step_iff :
      (cmds : List String) (s : Log) (b : Bool)
      → (success_step deps cmds s).0 ≡ ok b
      → (b ≡ true) ↔ AllSucceed cmds
  unfolding success_step
  success_step_iff [] s b e = ground arith
  success_step_iff (cmd ∷ cmds) s b e = elim (Bool-cases (is_blank cmd)) [
    | inl blank ↦
        let ih = success_step_iff cmds s b (rw (blank, success_step) at e) in
        (λ t. (λ f. absurd (ground arith), ih.0 t), λ h. ih.1 h.1)
    | inr text ↦
        let (here, first, e') = and_then-eq-ok (run_command deps cmd s) _ (rw text at e) in
        let (later, second, e'') =
          and_then-eq-ok (success_step deps cmds (run_command deps cmd s).1) _ e' in
        let ih = success_step_iff cmds (run_command deps cmd s).1 later second in
        let one = run_command_iff cmd s here first in
        (
          λ t. (λ _. one.0 (ground arith), ih.0 (ground arith)),
          λ h. ground (arith, one.1 (h.0 text), ih.1 h.1),
        )
  ]

  abbrev is_green : ProfileGateRecord → Bool
  is_green r = elim r.status [ red ↦ false | _ ↦ true ]

  -- The loop over the records never throws.
  profile_loop_val :
      (rs : List ProfileGateRecord) (s : Log) → (profile_loop deps rs s).0 ≡ ok (every is_green rs)
  unfolding profile_loop
  profile_loop_val [] s = refl
  profile_loop_val (r ∷ rs) s =
      let failed : FailedStep = record {
        label = profile_gate r.id;
        exit_code = r.exit_code;
        output = r.output;
      } in
      let noted : Log = record {
        reasons = s.reasons ++ profile_gate_failed r.id r.exit_code ∷ [];
        failed = s.failed ++ failed ∷ [];
      } in
      ground (
        arith,
        profile_loop_val rs s,
        and_then_ok {B = Bool} (profile_loop deps rs noted) (λ _. pure false)
            (profile_loop_val rs noted),
      )

  every-is_green_iff :
      (rs : List ProfileGateRecord) → (every is_green rs ≡ true) ↔ All (λ r. r.status ≢ red) rs
  every-is_green_iff [] = ground arith
  every-is_green_iff (r ∷ rs) = ground (arith, every-is_green_iff rs)

  -- The profile is off, or all its gates answer and none is red.
  abbrev pub ProfilePasses : List String → Type 0
  ProfilePasses changed = elim deps.run_profile_gates [
    | none ↦ Unit
    | some run ↦
        (rs : List ProfileGateRecord) × (run changed ≡ ok rs) × All (λ r. r.status ≢ red) rs
  ]

  pub profile_step_iff :
      (changed : List String) (s : Log) (p : Bool × List ProfileGateRecord)
      → (profile_step deps changed s).0 ≡ ok p
      → (p.0 ≡ true) ↔ ProfilePasses changed
  unfolding profile_step
  profile_step_iff changed s p e = elim (Option-cases deps.run_profile_gates) [
    | inl off ↦ rw off (λ _. tt, λ _. ground arith)
    | inr (run, on) ↦ elim (Result-cases (run changed)) [
      | inl (rs, answered) ↦
          let looped : p ≡ (every is_green rs, rs) = ground (
            arith,
            and_then_ok {B = Bool × List ProfileGateRecord} (profile_loop deps rs s)
                (λ g. pure (g, rs)) (profile_loop_val rs s),
          ) in
          let each = every-is_green_iff rs in
          rw on (
            λ h. (rs, answered, each.0 (ground arith)),
            λ (rs', same, h).
                ground (arith, each.1 (subst (All (λ r. r.status ≢ red)) (ground arith) h)),
          )
      | inr (x, threw) ↦ absurd (ground arith)
    ]
  ]

  pub constitution_step_val :
      (inv : Invariants) (changed : List String) (s : Log) (cs : List String)
      → (constitution_step deps inv changed s).0 ≡ ok cs
      → cs ≡ constitution_touched deps inv changed
  unfolding constitution_step
  constitution_step_val inv changed s cs e = ground arith
