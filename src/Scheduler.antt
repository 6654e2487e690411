-- ===== src/Scheduler.antt =====
-- src/scheduler/scheduler.ts: which pending task may be claimed.
--
-- The four directories are read first; another process may move tasks before the claim's rename.
-- So a claim takes the board that was read, `seen`, and the board at which it renames, `now`.
pub mod Claims
pub mod Overlap
pub mod Locks
pub mod Report
use Prim.Native.String
use autodev_harness.Common.{
  String, Bool, true, false, not, ◌&&◌, Option, none, some, List, [], ◌∷◌, ◌++◌, map, every, any,
  elem, is_nil, if◌then◌else◌,
}
use autodev_harness.Util.Text.{join}
use autodev_harness.Util.Glob.{normalize_path}
use autodev_harness.Blackboard.{
  Task, Board, pending, active, done, escalated, sort_tasks, list_tasks, move_task,
}

-- `fileSetsDisjoint`
unfoldable pub file_sets_disjoint : List String → List String → Bool
file_sets_disjoint a b =
    let normalized_a = map normalize_path a in
    not (any (λ p. elem (normalize_path p) normalized_a) b)

abbrev task_ids : List Task → List String
task_ids = map (λ t. t.id)

-- The two tests of a claim.
abbrev pub deps_met : List String → Task → Bool
deps_met done_ids task = every (λ id. elem id done_ids) task.depends_on

abbrev pub unlocked : List Task → Task → Bool
unlocked locked task = every (λ other. file_sets_disjoint task.file_set other.file_set) locked

-- The loop of `claimNextTask`. A rename that throws is a lost race: the scan goes on.
pub claim_from : List String → List Task → Board → List Task → Option Task × Board
claim_from done_ids locked now [] = (none, now)
claim_from done_ids locked now (task ∷ rest) =
    let later = claim_from done_ids locked now rest in
    if deps_met done_ids task && unlocked locked task
    then elim (move_task task.id pending active now) [
      | none ↦ later
      | some moved ↦ (some task, moved)
    ]
    else later

-- One line of the dry-run report.
pub record ClaimableReportEntry : Type 0 where
  pub id : String
  pub claimable : Bool
  pub blocked_by : String

abbrev label : String → String → String
label kind id = String.◌++◌ kind id

-- The entries that one loop over `active` or `escalated` pushes.
conflicts : String → Task → List Task → List String
conflicts kind task [] = []
conflicts kind task (other ∷ rest) =
    let later = conflicts kind task rest in
    if file_sets_disjoint task.file_set other.file_set then later else label kind other.id ∷ later

missing_deps : List String → List String → List String
missing_deps done_ids [] = []
missing_deps done_ids (id ∷ rest) =
    let later = missing_deps done_ids rest in
    if elem id done_ids then later else label "dep:" id ∷ later

-- `fileConflict` and `depsMet` are set exactly where an entry is pushed.
report_entry : List String → List Task → List Task → Task → ClaimableReportEntry
unfolding conflicts missing_deps join
report_entry done_ids actives escalateds task =
    let files = conflicts "active:" task actives ++ conflicts "escalated:" task escalateds in
    let deps = missing_deps done_ids task.depends_on in
    record {
      id = task.id;
      claimable = is_nil deps && is_nil files;
      blocked_by = join "," (files ++ deps);
    }

module _ (before : String → String → Bool) where
  -- `loadLocksAndDeps`: the pending tasks are sorted once more, in case the repository did not.
  abbrev pub pending_sorted : Board → List Task
  pending_sorted b = sort_tasks before (list_tasks before pending b)

  abbrev pub locked_tasks : Board → List Task
  locked_tasks b = list_tasks before active b ++ list_tasks before escalated b

  abbrev pub done_ids : Board → List String
  done_ids b = task_ids (list_tasks before done b)

  unfoldable pub claim_next_task : Board → Board → Option Task × Board
  unfolding claim_from
  claim_next_task seen now =
      claim_from (done_ids seen) (locked_tasks seen) now (pending_sorted seen)

  unfoldable pub list_claimable : Board → List ClaimableReportEntry
  unfolding report_entry
  list_claimable seen =
      map
        (report_entry (done_ids seen) (list_tasks before active seen)
          (list_tasks before escalated seen))
        (pending_sorted seen)
