-- ===== src/Gate/Monad.antt =====
-- What a gate run answers, throws and writes.
use autodev_harness.Common.{if◌then◌else◌, ℕ, String, Bool, Option, List, [], ◌∷◌, ◌++◌}
pub use autodev_harness.Util.Fallible.{
  Error, thrown, agent_ci_unavailable, command_unavailable, Result, ok, err, Result-cases, pure,
  lift, and_then, ◌>>=◌, ◌>>◌, and_then-eq-ok, and_then_ok, answers,
}
use autodev_harness.Util.Fallible.{Stateful}
use autodev_harness.Gate.Zones.{DiffFileContent, Invariants}
use autodev_harness.Gate.Guards.{GuardRow, GuardRecipePair}

pub data Decision : Type 0 where
  commit retry escalate : Decision

pub record ZoneResult : Type 0 where
  pub id : String
  pub auto_guardable : Bool
  pub guarded : Bool
  pub guard_test : List String  -- joined by ", "; `null` is the empty list
  pub mutation_passed : Bool
  pub blessed : Bool
  pub touched_strings : List String
  pub uncovered_strings : List String

pub data GateStatus : Type 0 where
  green red skipped : GateStatus

pub record ProfileGateRecord : Type 0 where
  pub id : String
  pub status : GateStatus
  pub exit_code : Option ℕ
  pub output : String

-- The strings of `reasons`, before they are spelled out.
pub data Reason : Type 0 where
  empty_file_set : Reason
  check_failed : ℕ → Reason
  success_command_failed : ℕ → String → Reason
  agent_ci_reason : String → Reason
  profile_gate_failed : String → Option ℕ → Reason
  constitution_changed : List String → Reason
  not_auto_guardable : (zone why : String) → Reason
  value_uncovered : (zone value : String) → Reason
  guard_not_blessed : (zone contract : String) → Reason
  guard_not_red : (zone contract : String) → Reason
  zone_uncovered : String → Reason
  zone_not_red : String → Reason
  zone_not_blessed : String → Reason

pub record GateVerdict : Type 0 where
  pub task_id : String
  pub composer_green : Bool
  pub success_green : Bool
  pub agent_ci_green : Bool
  pub profile_green : Bool
  pub constitution_touched : List String
  pub zones_touched : List ZoneResult
  pub decision : Decision
  pub reasons : List Reason
  pub changed_files : List String
  pub profile_gates : List ProfileGateRecord

pub data StepLabel : Type 0 where
  check_command : StepLabel
  success_command : String → StepLabel
  agent_ci : StepLabel
  profile_gate : String → StepLabel

-- `FailedStep`; the findings of a profile gate are left out.
pub record FailedStep : Type 0 where
  pub label : StepLabel
  pub exit_code : Option ℕ
  pub output : String

pub record GateInput : Type 0 where
  pub task_id : String
  pub file_set : List String
  pub range : Option String
  pub success_commands : List String

-- An answer of a command: its exit code and its output.
pub record CommandRun : Type 0 where
  pub exit_code : ℕ
  pub output : String

pub data Availability : Type 0 where
  available unknown : Availability
  unavailable : String → Availability

-- `GateDeps`, with the language's `toLowerCase` and regular expressions, and the reader of diffs.
pub record GateDeps : Type 0 where
  pub lower : String → String
  pub regex : String → Option (String → Bool)
  pub content_by_file : String → Option (List DiffFileContent)
  pub diff_named_paths : String → Option (List String)
  pub load_invariants : Result Invariants
  pub load_guard_pairs : Result (List GuardRecipePair)
  pub resolve_scope : Result (List String × String)
  pub run_check : Option (Result (Bool × CommandRun))
  pub run_success_command : String → Result CommandRun
  pub command_availability : Option (String → Result Availability)
  pub guard_still_red : GuardRow → Result Bool
  pub run_agent_ci : Option (Result (Bool × List String))
  pub run_profile_gates : Option (List String → Result (List ProfileGateRecord))
  pub constitution_paths : List String
  pub doc_paths : List String
  pub write_verdict : Option (GateVerdict → Result (Unit {0}))
  pub write_gate_feedback : Option (List FailedStep → Result (Unit {0}))

-- What a run has gathered: `reasons`, and the failed steps that outlive a throw.
pub record Log : Type 0 where
  pub reasons : List Reason
  pub failed : List FailedStep

abbrev pub M : Type 0 → Type 0
M = Stateful Log

abbrev pub noted : Reason → Log → Log
noted r s = record s { reasons = s.reasons ++ r ∷ [] }

abbrev pub reason : Reason → M (Unit {0})
reason r s = (ok tt, noted r s)

-- `if (!passed) reasons.push(...)`
abbrev pub reason_unless : Bool → Reason → M (Unit {0})
reason_unless passed r s = (ok tt, if passed then s else noted r s)

abbrev pub failed_step : FailedStep → M (Unit {0})
failed_step f s = (ok tt, record s { failed = s.failed ++ f ∷ [] })
