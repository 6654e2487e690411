-- ===== src/Blackboard/Moves.antt =====
-- What a move between queues keeps, and what the sorted listing shows of a directory.
use autodev_harness.Common.{
  String, Bool, false, none, some, List, [], ◌∷◌, ◌≡◌, inl, inr, arith, eq_iff, eq_refl, lookup,
  remove, put, lookup-remove, All, All-imp, Option-cases, Bool-cases,
}
use autodev_harness.Blackboard.{
  Task, Board, Dir, QueueState, pending, active, done, escalated, quarantine, queue_dir, set_dir,
  unsafe_segment, move_task, insert_task, sort_tasks,
}

-- A directory as the file system keeps it: distinct names, each the id of its task and safe.
abbrev pub IsNamed : String × Task → Type 0
IsNamed e = (e.1.id ≡ e.0) × (unsafe_segment e.0 ≡ false)

abbrev pub IsDir : Dir → Type 0
IsDir [] = Unit
IsDir ((k, t) ∷ d) = (t.id ≡ k) × (unsafe_segment k ≡ false) × (lookup k d ≡ none) × IsDir d

remove-IsDir : (k : String) (d : Dir) → IsDir d → IsDir (remove k d)
remove-IsDir k [] h = tt
remove-IsDir k ((j, t) ∷ d) (named, safe, fresh, h) =
    ground (arith, remove-IsDir k d h, lookup-remove k j d)

put-IsDir :
    (k : String) (t : Task) (d : Dir)
    → IsDir d
    → t.id ≡ k
    → unsafe_segment k ≡ false
    → IsDir (put k t d)
put-IsDir k t d h named safe =
    (named, safe, ground (arith, lookup-remove k k d, eq_refl k), remove-IsDir k d h)

-- A file that is seen under a name has that name for its id.
lookup-named :
    (k : String) (d : Dir) (t : Task)
    → IsDir d
    → lookup k d ≡ some t
    → (t.id ≡ k) × (unsafe_segment k ≡ false)
lookup-named k [] t h e = cc
lookup-named k ((j, u) ∷ d) t (named, safe, _, h) e =
    ground (arith, eq_iff j k, lookup-named k d t h)

-- Each file is seen under its name, which is its task's id.
abbrev pub IsSeen : Dir → String × Task → Type 0
IsSeen d e = (e.1.id ≡ e.0) × (unsafe_segment e.0 ≡ false) × (lookup e.0 d ≡ some e.1)

pub IsDir-IsSeen : (d : Dir) → IsDir d → All (IsSeen d) d
IsDir-IsSeen [] h = tt
IsDir-IsSeen ((k, t) ∷ d) (named, safe, fresh, h) = (
  (named, safe, ground (arith, eq_refl k)),
  All-imp (IsSeen d) (IsSeen ((k, t) ∷ d)) d
      (λ e (same, clean, seen). (same, clean, ground (arith, eq_iff k e.0))) (IsDir-IsSeen d h),
)

-- The board after a rename that finds the file `t`.
abbrev pub relocate : String → Task → QueueState → QueueState → Board → Board
relocate id t from to b =
    let left = set_dir from (remove id (queue_dir from b)) b in
    set_dir to (put id t (queue_dir to left)) left

-- The move's effect, when it does not throw.
pub move_task-some :
    (id : String) (from to : QueueState) (b : Board) {b' : Board}
    → move_task id from to b ≡ some b'
    → (t : Task) × (lookup id (queue_dir from b) ≡ some t)
      × (unsafe_segment id ≡ false)
      × (b' ≡ relocate id t from to b)
unfolding move_task
move_task-some id from to b e = elim (Option-cases (lookup id (queue_dir from b))) [
  | inl missing ↦ absurd (ground arith)
  | inr (t, found) ↦ (t, found, ground arith, ground arith)
]

pub move_task_found :
    (id : String) (from to : QueueState) (b : Board) (t : Task)
    → lookup id (queue_dir from b) ≡ some t
    → unsafe_segment id ≡ false
    → move_task id from to b ≡ some (relocate id t from to b)
unfolding move_task
move_task_found id from to b t found safe = rw (safe, found)

-- Every directory of the board is one.
abbrev pub IsBoard : Board → Type 0
IsBoard b = (s : QueueState) → IsDir (queue_dir s b)

set_dir-IsBoard :
    (to : QueueState) (d : Dir) (b : Board) → IsBoard b → IsDir d → IsBoard (set_dir to d b)
set_dir-IsBoard pending d b v h pending = h
set_dir-IsBoard active d b v h active = h
set_dir-IsBoard done d b v h done = h
set_dir-IsBoard escalated d b v h escalated = h
set_dir-IsBoard quarantine d b v h quarantine = h
set_dir-IsBoard pending d b v h s = v s
set_dir-IsBoard active d b v h s = v s
set_dir-IsBoard done d b v h s = v s
set_dir-IsBoard escalated d b v h s = v s
set_dir-IsBoard quarantine d b v h s = v s

pub relocate-IsBoard :
    (id : String) (t : Task) (from to : QueueState) (b : Board)
    → IsBoard b
    → lookup id (queue_dir from b) ≡ some t
    → IsBoard (relocate id t from to b)
relocate-IsBoard id t from to b v found =
    let left = set_dir from (remove id (queue_dir from b)) b in
    let w = set_dir-IsBoard from _ b v (remove-IsDir id (queue_dir from b) (v from)) in
    let (named, safe) = lookup-named id (queue_dir from b) t (v from) found in
    set_dir-IsBoard to _ left w (put-IsDir id t (queue_dir to left) (w to) named safe)

-- What holds of a sorted list holds of the list, and back.
module _ (before : String → String → Bool) (P : Task → Type 0) where
  insert_task-All : (a : Task) (xs : List Task) → P a → All P xs → All P (insert_task before a xs)
  unfolding insert_task
  insert_task-All a [] p h = (p, tt)
  insert_task-All a (x ∷ xs) p (q, h) = elim (Bool-cases (before x.id a.id)) [
    | inl e ↦ rw e (q, insert_task-All a xs p h)
    | inr e ↦ rw e (p, (q, h))
  ]

  All-insert_task : (a : Task) (xs : List Task) → All P (insert_task before a xs) → P a × All P xs
  unfolding insert_task
  All-insert_task a [] h = h
  All-insert_task a (x ∷ xs) h = elim (Bool-cases (before x.id a.id)) [
    | inl e ↦
        let (q, rest) = rw e at h in let (p, later) = All-insert_task a xs rest in (p, (q, later))
    | inr e ↦ rw e at h
  ]

  pub sort_tasks-All : (xs : List Task) → All P xs → All P (sort_tasks before xs)
  unfolding sort_tasks
  sort_tasks-All [] h = tt
  sort_tasks-All (x ∷ xs) (p, h) = insert_task-All x (sort_tasks before xs) p (sort_tasks-All xs h)

  pub All-sort_tasks : (xs : List Task) → All P (sort_tasks before xs) → All P xs
  unfolding sort_tasks
  All-sort_tasks [] h = tt
  All-sort_tasks (x ∷ xs) h =
      let (p, later) = All-insert_task x (sort_tasks before xs) h in (p, All-sort_tasks xs later)
