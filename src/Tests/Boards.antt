-- ===== src/Tests/Boards.antt =====
-- A queue of two tasks that share a file, and the scheduler's theorems on it.
use autodev_harness.Common.{
  map, String, Bool, true, false, none, some, List, [], ◌∷◌, ◌≡◌, ◌↔◌, ◌⊎◌, refl, All, elem, arith,
}
use mathlib.Core.List.{Memᴰ}
use autodev_harness.Util.Glob.{
  to_slashes, normalize_path, NoBackslash, StartsPlain, normalize_path_normal,
}
use autodev_harness.Blackboard.{
  Task, Board, Dir, pending, active, escalated, done, quarantine, move_task, unsafe_segment,
  list_tasks, sort_tasks,
}
use autodev_harness.Router.{resolve_ladder}
use autodev_harness.Router.Laws.{IsEnd, WarnsUnless, resolve_ladder-IsEnd}
use autodev_harness.Blackboard.Moves.{IsBoard}
use autodev_harness.Scheduler.Report.{claim_view, list_claimable-claimable}
use autodev_harness.Scheduler.{
  list_claimable, file_sets_disjoint, claim_next_task, pending_sorted, locked_tasks, done_ids,
}
use autodev_harness.Scheduler.Claims.{
  Apart, may_claim, claim_next_task_sound, claim_next_task-none_iff,
}
use autodev_harness.Scheduler.Locks.{IsValid}

abbrev pub task_of : String → List String → List String → Task
task_of id files deps = record {
  id = id;
  title = "a task";
  type = "feature";
  touches_contract_zone = false;
  writes_guard = false;
  model = none;
  success_commands = [];
  forbidden_paths = [];
  max_rounds = none;
  file_set = files;
  depends_on = deps;
  contract_zones_touched = [];
  needs_guard = false;
  acceptance = [];
  phase = none;
  body = "";
  path = "";
}

-- No id comes before another: the listings keep the order of the directories.
abbrev pub unordered : String → String → Bool
unordered a b = false

abbrev pub board_of : Dir → Dir → Board
board_of waiting running = record {
  pending_dir = waiting;
  active_dir = running;
  done_dir = [];
  escalated_dir = [];
  quarantine_dir = [];
}

abbrev pub first : Task
first = task_of "t1" ("src/a.ts" ∷ []) []

abbrev pub second : Task
second = task_of "t2" ("./src\\a.ts" ∷ []) []

abbrev pub waiting : Board
waiting = board_of (("t1", first) ∷ ("t2", second) ∷ []) []

abbrev pub claimed : Task
claimed = record first { path = "queue/pending/t1.md" }

abbrev pub running : Board
running = board_of (("t2", second) ∷ []) (("t1", first) ∷ [])

abbrev parked : Board
parked = record (board_of (("t2", second) ∷ []) []) { escalated_dir = ("t1", first) ∷ [] }

boards : Unit {0}
unfolding claim_next_task list_tasks sort_tasks move_task unsafe_segment file_sets_disjoint
    normalize_path to_slashes
boards = tt

claim_waiting : claim_next_task unordered waiting waiting ≡ (some claimed, running)
unfolding boards
claim_waiting = refl

-- The second task shares its path with the first, written another way.
claim_running : (claim_next_task unordered running running).0 ≡ none
unfolding boards
claim_running = refl

waiting-IsBoard : IsBoard waiting
unfolding boards
waiting-IsBoard pending = (refl, refl, refl, (refl, refl, refl, tt))
waiting-IsBoard active = tt
waiting-IsBoard done = tt
waiting-IsBoard escalated = tt
waiting-IsBoard quarantine = tt

pub waiting-IsValid : IsValid waiting
waiting-IsValid = record { board = waiting-IsBoard; exclusive = λ i j t u ne hi hj. ground arith }

claim_next_task_sound_example :
    Memᴰ claimed (pending_sorted unordered waiting)
    × All (λ d. elem d (done_ids unordered waiting) ≡ true) claimed.depends_on
    × All (Apart claimed) (locked_tasks unordered waiting)
    × (move_task claimed.id pending active waiting ≡ some running)
claim_next_task_sound_example =
    claim_next_task_sound unordered waiting waiting claimed running claim_waiting

claim_next_task-none_iff_example :
    ((claim_next_task unordered running running).0 ≡ none)
    ↔ All
        (λ t.
          may_claim (done_ids unordered running) (locked_tasks unordered running) t ≡ true
          → move_task t.id pending active running ≡ none)
        (pending_sorted unordered running)
claim_next_task-none_iff_example = claim_next_task-none_iff unordered running running

normalize_path_normal_example :
    NoBackslash (normalize_path ".\\src\\a.ts")
    × StartsPlain (normalize_path ".\\src\\a.ts")
    × (normalize_path (normalize_path ".\\src\\a.ts") ≡ normalize_path ".\\src\\a.ts")
normalize_path_normal_example = normalize_path_normal ".\\src\\a.ts"

abbrev cheap : Task
cheap = record first { model = some "haiku" }

resolve_ladder-IsEnd_example :
    ((cheap.touches_contract_zone ≡ true)
      × ((resolve_ladder "opus" ("haiku" ∷ []) cheap).ladder ≡ "opus" ∷ [])
      × WarnsUnless ("opus" ∷ []) (some "haiku") (resolve_ladder "opus" ("haiku" ∷ []) cheap))
    ⊎ ((cheap.touches_contract_zone ≡ false)
        × IsEnd
            ("opus" ∷ "haiku" ∷ [])
            (some "haiku")
            (resolve_ladder "opus" ("haiku" ∷ []) cheap).ladder
        × WarnsUnless
            ("opus" ∷ "haiku" ∷ [])
            (some "haiku")
            (resolve_ladder "opus" ("haiku" ∷ []) cheap))
resolve_ladder-IsEnd_example = resolve_ladder-IsEnd "opus" ("haiku" ∷ []) cheap

list_claimable-claimable_example :
    map (λ e. (e.id, e.claimable)) (list_claimable unordered running)
    ≡ map
        (claim_view (done_ids unordered running) (locked_tasks unordered running))
        (pending_sorted unordered running)
list_claimable-claimable_example = list_claimable-claimable unordered running
