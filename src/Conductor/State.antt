-- ===== src/Conductor/State.antt =====
-- What one iteration of the conductor reads, changes and leaves behind.
use autodev_harness.Common.{
  ℕ, suc, String, Bool, true, false, Option, none, some, List, [], ◌∷◌, ◌++◌, if◌then◌else◌, lookup,
  put,
}
use autodev_harness.Util.Fallible.{
  Error, thrown, agent_ci_unavailable, command_unavailable, Result, ok, err, Stateful,
}
use autodev_harness.Util.Fingerprint.{Snapshot}
use autodev_harness.Blackboard.{Board, QueueState, move_task}
use autodev_harness.Gate.Monad.{GateVerdict, GateInput}

pub data EscalationType : Type 0 where
  needs_guard disagreement constitution uncertain poison blocked dirty_file drift
        critic_unavailable :
      EscalationType

pub data VerdictKind : Type 0 where
  clean broken unsure : VerdictKind

-- `Verdict` of src/critic/verdict.ts; the confidence is in thousandths.
pub record Verdict : Type 0 where
  pub verdict : VerdictKind
  pub broken_contracts : List String
  pub notes : String
  pub confidence : ℕ

pub record WorkerResult : Type 0 where
  pub rate_limited : Bool
  pub timed_out : Bool

pub record CriticResult : Type 0 where
  pub verdict : Option Verdict
  pub rate_limited : Bool

pub record OracleSet : Type 0 where
  pub literals : List String
  pub globs : List String

pub data MergeResult : Type 0 where
  merged conflict : MergeResult
  refused : String → MergeResult

-- The sites that escalate, with what their texts are made of.
pub data Incident : Type 0 where
  circuit_breaker : (attempts max : ℕ) → Incident
  oracle_unresolved : Error → Incident
  too_big needs_a_guard is_blocked : (report : String) → Incident
  oracle_touched : (drift globs : List String) → Incident
  out_of_scope : (stray forbidden : List String) → Incident
  no_verdict : Incident
  not_clean : Verdict → Incident
  gate_threw : Error → (touches_zones : Bool) → Incident
  branch_moved : (current expected : String) → Incident
  merge_failed : MergeResult → Incident
  gate_refused : GateVerdict → Incident
  unexpected : Error → Incident

abbrev is_nil_list : List String → Bool
is_nil_list [] = true
is_nil_list (_ ∷ _) = false

-- The `type` field of each escalation.
abbrev pub type_of : Incident → EscalationType
type_of (circuit_breaker _ _) = poison
type_of (oracle_unresolved _) = constitution
type_of (too_big _) = blocked
type_of (needs_a_guard _) = needs_guard
type_of (is_blocked _) = blocked
type_of (oracle_touched _ _) = constitution
type_of (out_of_scope _ _) = dirty_file
type_of no_verdict = critic_unavailable
type_of (not_clean v) = elim v.verdict [ broken ↦ disagreement | _ ↦ uncertain ]
type_of (gate_threw e touches) = elim e [
  | agent_ci_unavailable _ ↦ blocked
  | command_unavailable _ ↦ blocked
  | thrown _ ↦ if touches then constitution else needs_guard
]
type_of (branch_moved _ _) = blocked
type_of (merge_failed _) = blocked
type_of (gate_refused v) = if is_nil_list v.constitution_touched then needs_guard else constitution
type_of (unexpected _) = blocked

pub record Escalation : Type 0 where
  pub task_id : String
  pub incident : Incident

pub data Ending : Type 0 where
  abandoned escalated_ending quarantined committed_ending : Ending

-- The evidence draft of an iteration: the fields that its decision sets.
pub record Draft : Type 0 where
  pub outcome : Ending
  pub escalation : Option Incident
  pub commit : Option String
  pub rounds : ℕ
  pub attempts : ℕ
  pub critic : Option Verdict
  pub gate : Option GateVerdict

-- The content of a runtime file.
pub data Content : Type 0 where
  text : String → Content
  verdict_doc : Verdict → Content

-- `Worktree` of src/worktree/worktree.ts
pub record Worktree : Type 0 where
  pub path : String
  pub branch : String
  pub task_id : String

-- `loopBranch`, and the worktree that was made off it.
pub record Site : Type 0 where
  pub branch : String
  pub worktree : Worktree

-- A merge that landed: what `mergeAfterGate` was called with, and the commit.
pub record Merge : Type 0 where
  pub worktree : Worktree
  pub target : String
  pub commit : String

-- What the iteration changes. The runtime files are those of the claimed task; `renames` and `writes`
-- number the renames and the writes that were tried, so that each may fail by itself.
pub record World : Type 0 where
  pub board : Board
  pub attempts : List (String × ℕ)
  pub runtime : List (String × Content)
  pub escalations : List Escalation
  pub draft : Draft
  pub ledger : Option Draft
  pub worker_runs : ℕ
  pub merges : List Merge
  pub worktrees : ℕ
  pub renames : ℕ
  pub writes : ℕ

pub record IterationResult : Type 0 where
  pub claimed : Option String
  pub committed : Bool
  pub rate_limited : Bool

-- The configuration, the answers of what the iteration calls (round by round), and the faults of
-- the repository's files.
pub record Env : Type 0 where
  pub before : String → String → Bool
  pub max_attempts : ℕ
  pub retry_max : ℕ
  pub remove_fault : Bool
  pub allowed_branch : String → Bool
  pub dirty_fence_ignore : List String
  pub status_of : String → String
  pub get_attempts_fault : Bool
  pub set_attempts_fault : ℕ → Bool
  pub move_fault : ℕ → QueueState → QueueState → Bool
  pub write_fault : ℕ → String → Bool
  pub read_fault : String → Bool
  pub escalate_fault : Bool
  pub current_branch : Result String
  pub create_worktree : String → String → Result Worktree
  pub resolve_oracle_set : ℕ → Result OracleSet
  pub changed_before : Worktree → ℕ → Result Snapshot
  pub worker_run : Worktree → ℕ → Option Content → Option Content → Result WorkerResult
  pub harvest : Worktree → ℕ → Result (Option String)
  pub changed_after : Worktree → ℕ → Result Snapshot
  pub oracle_before : Worktree → ℕ → OracleSet → Snapshot
  pub oracle_after : Worktree → ℕ → OracleSet → Snapshot
  pub worktree_diff : Worktree → List String → ℕ → Result String
  pub critic_run : ℕ → String → Result CriticResult
  pub zones_in_diff : String → Result (List String)
  pub run_gate : GateInput → Worktree → Result GateVerdict
  pub branch_at_commit : Result String
  pub commit_files : Worktree → List String → Result String
  pub merge_after_gate : Worktree → String → Result MergeResult

abbrev pub M : Type 0 → Type 0
M = Stateful World

module _ (env : Env) where
  -- `repo.moveTask`
  unfoldable pub move : String → QueueState → QueueState → M (Unit {0})
  move id from to w =
      let tried = record w { renames = suc w.renames } in
      if env.move_fault w.renames from to
      then (err (thrown "rename"), tried)
      else elim (move_task id from to w.board) [
        | none ↦ (err (thrown "rename"), tried)
        | some b ↦ (ok tt, record tried { board = b })
      ]

  -- `repo.getAttempts` and `repo.setAttempts`
  unfoldable pub get_attempts : String → M ℕ
  get_attempts id w =
      if env.get_attempts_fault
      then (err (thrown "read"), w)
      else (ok (elim (lookup id w.attempts) [ none ↦ 0 | some n ↦ n ]), w)

  unfoldable pub set_attempts : String → ℕ → M (Unit {0})
  set_attempts id n w =
      if env.set_attempts_fault n
      then (err (thrown "write"), w)
      else (ok tt, record w { attempts = put id n w.attempts })

  -- `repo.writeRuntimeFile` and `repo.readRuntimeFile`
  unfoldable pub write_runtime : String → Content → M (Unit {0})
  write_runtime name content w =
      let tried = record w { writes = suc w.writes } in
      if env.write_fault w.writes name
      then (err (thrown "write"), tried)
      else (ok tt, record tried { runtime = put name content w.runtime })

  unfoldable pub read_runtime : String → M (Option Content)
  read_runtime name w =
      if env.read_fault name then (err (thrown "read"), w) else (ok (lookup name w.runtime), w)

  -- `persistCriticVerdict`: a failed write is logged and ignored.
  unfoldable pub persist_verdict : Verdict → M (Unit {0})
  persist_verdict v w =
      let tried = record w { writes = suc w.writes } in
      if env.write_fault w.writes "critic-verdict.json"
      then (ok tt, tried)
      else (ok tt, record tried { runtime = put "critic-verdict.json" (verdict_doc v) w.runtime })

  -- `escalateAndRecord`: the draft is written before the escalation is sent.
  unfoldable pub escalate_and_record : String → Incident → Ending → M (Unit {0})
  escalate_and_record id incident outcome w =
      let recorded = record w {
        draft = record (w.draft) { outcome = outcome; escalation = some incident };
      } in
      if env.escalate_fault then (err (thrown "escalate"), recorded) else (
        ok tt,
        record recorded {
          escalations = w.escalations ++ record { task_id = id; incident = incident } ∷ [];
        },
      )

-- Assignments to the draft.
abbrev pub set_rounds : ℕ → M (Unit {0})
set_rounds n w = (ok tt, record w { draft = record (w.draft) { rounds = n } })

abbrev pub set_critic : Verdict → M (Unit {0})
set_critic v w = (ok tt, record w { draft = record (w.draft) { critic = some v } })

abbrev pub set_gate : GateVerdict → M (Unit {0})
set_gate v w = (ok tt, record w { draft = record (w.draft) { gate = some v } })

abbrev pub set_outcome : Ending → M (Unit {0})
set_outcome o w = (ok tt, record w { draft = record (w.draft) { outcome = o } })

abbrev pub set_commit : String → M (Unit {0})
set_commit h w = (ok tt, record w { draft = record (w.draft) { commit = some h } })
