-- ===== src/Blackboard.antt =====
-- src/blackboard: the task queues on disk.
--
-- A queue directory (`.autodev/queue/<state>`) is the list of its files, each keyed by its name
-- without `.md`; a read of the directory parses each file into a `Task`.
pub mod Moves
use Prim.Native.String
use autodev_harness.Common.{
  ℕ, String, Bool, true, false, ◌||◌, Option, none, some, List, [], ◌∷◌, map, ◌==◌, code, nat_eq,
  if◌then◌else◌, lookup, remove, put,
}

pub record Task : Type 0 where
  pub id : String
  pub title : String
  pub type : String
  pub touches_contract_zone : Bool
  pub writes_guard : Bool
  pub model : Option String
  pub success_commands : List String
  pub forbidden_paths : List String
  pub max_rounds : Option ℕ
  pub file_set : List String
  pub depends_on : List String
  pub contract_zones_touched : List String
  pub needs_guard : Bool
  pub acceptance : List String
  pub phase : Option String
  pub body : String
  pub path : String

pub data QueueState : Type 0 where
  pending active done escalated quarantine : QueueState

abbrev pub Dir : Type 0
Dir = List (String × Task)

pub record Board : Type 0 where
  pub pending_dir : Dir
  pub active_dir : Dir
  pub done_dir : Dir
  pub escalated_dir : Dir
  pub quarantine_dir : Dir

-- `queueDir(state)`
abbrev pub queue_dir : QueueState → Board → Dir
queue_dir pending b = b.pending_dir
queue_dir active b = b.active_dir
queue_dir done b = b.done_dir
queue_dir escalated b = b.escalated_dir
queue_dir quarantine b = b.quarantine_dir

abbrev pub set_dir : QueueState → Dir → Board → Board
set_dir pending d b = record b { pending_dir = d }
set_dir active d b = record b { active_dir = d }
set_dir done d b = record b { done_dir = d }
set_dir escalated d b = record b { escalated_dir = d }
set_dir quarantine d b = record b { quarantine_dir = d }

-- `segment.includes(c)` for one character, and `segment.includes("..")`.
includes_char : ℕ → String → Bool
includes_char n String.[] = false
includes_char n (String.◌∷◌ c s) = nat_eq (code c) n || includes_char n s

includes_dots : Bool → String → Bool
includes_dots before String.[] = false
includes_dots before (String.◌∷◌ c s) =
    if nat_eq (code c) b'.' then before || includes_dots true s else includes_dots false s

-- The test of `safePathSegment`, which throws where this is true.
unfoldable pub unsafe_segment : String → Bool
unfolding includes_char includes_dots
unsafe_segment s =
    (s == "")
    || includes_char b'/' s
    || includes_char b'\\' s
    || includes_dots false s
    || includes_char 0 s

-- `moveTask`: `rename(queue/<from>/<id>.md, queue/<to>/<id>.md)`. The rename takes the place of a
-- file of that name in `to`. `none` is a throw: an unsafe id, or no such file.
unfoldable pub move_task : String → QueueState → QueueState → Board → Option Board
move_task id from to b = if unsafe_segment id then none else elim (lookup id (queue_dir from b)) [
  | none ↦ none
  | some t ↦
      let left = set_dir from (remove id (queue_dir from b)) b in
      some (set_dir to (put id t (queue_dir to left)) left)
]

-- The name of a queue's directory, for `join("queue", state, f)`.
abbrev pub state_name : QueueState → String
state_name pending = "pending"
state_name active = "active"
state_name done = "done"
state_name escalated = "escalated"
state_name quarantine = "quarantine"

abbrev pub queue_path : QueueState → String → String
queue_path s name =
    String.◌++◌ "queue/" (String.◌++◌ (state_name s) (String.◌++◌ "/" (String.◌++◌ name ".md")))

module _ (before : String → String → Bool) where
  -- A stable insertion into a list that is sorted by id: `a` goes before its equals.
  insert_task : Task → List Task → List Task
  insert_task a [] = a ∷ []
  insert_task a (x ∷ xs) =
      let rest = insert_task a xs in if before x.id a.id then x ∷ rest else a ∷ x ∷ xs

  -- `tasks.sort((a, b) => a.id.localeCompare(b.id))`; `before` is "compares less than".
  unfoldable pub sort_tasks : List Task → List Task
  unfolding insert_task
  sort_tasks [] = []
  sort_tasks (x ∷ xs) = insert_task x (sort_tasks xs)

  -- `listTasks`: every file of the directory, read under its path, sorted by id.
  unfoldable pub list_tasks : QueueState → Board → List Task
  unfolding sort_tasks
  list_tasks s b = sort_tasks (map (λ e. record (e.1) { path = queue_path s e.0 }) (queue_dir s b))
