-- ===== src/Scheduler/Locks.antt =====
-- The locks on files: no two tasks that hold locks share a path, after any history of claims,
-- settlements and requeues.
use mathlib.Core.Path.{subst}
use autodev_harness.Common.{
  String, Bool, false, some, ◌≡◌, ◌≢◌, refl, sym, ◌⊎◌, inl, inr, arith, eq_iff, lookup, lookup-All,
  remove, lookup-remove, All, All-left, All-right, All-imp, Memᴰ-All,
}
use autodev_harness.Blackboard.{
  Task, Board, QueueState, pending, active, escalated, queue_dir, move_task, unsafe_segment,
  list_tasks,
}
use autodev_harness.Blackboard.Moves.{
  IsSeen, IsDir-IsSeen, IsBoard, relocate, move_task-some, relocate-IsBoard, sort_tasks-All,
}
use autodev_harness.Scheduler.{pending_sorted, locked_tasks, claim_next_task}
use autodev_harness.Scheduler.Overlap.{file_sets_disjoint_comm}
use autodev_harness.Scheduler.Claims.{Apart, All-list_tasks, list_tasks-All, claim_next_task_sound}

-- The holder of a lock under a name: an active or an escalated task.
abbrev pub Holds : String → Task → Board → Type 0
Holds k t b = (lookup k b.active_dir ≡ some t) ⊎ (lookup k b.escalated_dir ≡ some t)

-- Directories as the file system keeps them, and locks that share no path.
pub record IsValid (b : Board) : Type 0 where
  pub board : IsBoard b
  pub exclusive : (i j : String) (t u : Task) → i ≢ j → Holds i t b → Holds j u b → Apart t u

-- The states whose tasks hold locks.
abbrev pub IsLocking : QueueState → Type 0
IsLocking active = Unit
IsLocking escalated = Unit
IsLocking _ = ⊥

claim-exclusive :
    (id : String) (t : Task) (b : Board)
    → IsValid b
    → ((j : String) (u : Task) → Holds j u b → Apart t u)
    → (i j : String) (v u : Task) → i ≢ j
    → Holds i v (relocate id t pending active b)
    → Holds j u (relocate id t pending active b)
    → Apart v u
claim-exclusive id t b valid free i j v u ne hi hj = ground (
  arith,
  eq_iff id i,
  eq_iff id j,
  lookup-remove id i b.active_dir,
  lookup-remove id j b.active_dir,
  valid.exclusive i j v u,
  free i v,
  free j u,
  file_sets_disjoint_comm t.file_set v.file_set,
)

-- A move out of a locking state moves a lock or drops it.
settle-Holds :
    (id : String) (t : Task) (from to : QueueState) (b : Board)
    → IsLocking from
    → lookup id (queue_dir from b) ≡ some t
    → (i : String) (v : Task) → Holds i v (relocate id t from to b)
    → Holds i v b
settle-Holds id t active active b l found i v h = ground (
  arith,
  eq_iff id i,
  lookup-remove id i b.active_dir,
  lookup-remove id i b.escalated_dir,
  lookup-remove id i (remove id b.active_dir),
  lookup-remove id i (remove id b.escalated_dir),
)
settle-Holds id t active escalated b l found i v h =
    ground (arith, eq_iff id i, lookup-remove id i b.active_dir, lookup-remove id i b.escalated_dir)
settle-Holds id t active _ b l found i v h =
    ground (arith, eq_iff id i, lookup-remove id i b.active_dir, lookup-remove id i b.escalated_dir)
settle-Holds id t escalated active b l found i v h =
    ground (arith, eq_iff id i, lookup-remove id i b.active_dir, lookup-remove id i b.escalated_dir)
settle-Holds id t escalated escalated b l found i v h = ground (
  arith,
  eq_iff id i,
  lookup-remove id i b.active_dir,
  lookup-remove id i b.escalated_dir,
  lookup-remove id i (remove id b.active_dir),
  lookup-remove id i (remove id b.escalated_dir),
)
settle-Holds id t escalated _ b l found i v h =
    ground (arith, eq_iff id i, lookup-remove id i b.active_dir, lookup-remove id i b.escalated_dir)
settle-Holds id t _ to b l found i v h = elim l [ ]

-- A move into a state that holds no lock takes none.
requeue-Holds :
    (id : String) (t : Task) (from : QueueState) (b : Board) (i : String) (v : Task)
    → Holds i v (relocate id t from pending b)
    → Holds i v b
requeue-Holds id t active b i v h = ground (arith, eq_iff id i, lookup-remove id i b.active_dir)
requeue-Holds id t escalated b i v h =
    ground (arith, eq_iff id i, lookup-remove id i b.escalated_dir)
requeue-Holds id t _ b i v h = h

exclusive-of-Holds :
    (b b' : Board)
    → IsValid b
    → ((i : String) (v : Task) → Holds i v b' → Holds i v b)
    → (i j : String) (t u : Task) → i ≢ j
    → Holds i t b'
    → Holds j u b'
    → Apart t u
exclusive-of-Holds b b' valid back i j t u ne hi hj =
    valid.exclusive i j t u ne (back i t hi) (back j u hj)

module _ (before : String → String → Bool) where
  -- The tasks that the scheduler lists are the files of the directories.
  locked_free :
      (b : Board) (t : Task)
      → All (Apart t) (locked_tasks before b)
      → (j : String) (u : Task) → Holds j u b
      → Apart t u
  locked_free b t h j u holds =
      let here = All-list_tasks before (Apart t) active b (All-left (Apart t) _ _ h) in
      let there =
        All-list_tasks before (Apart t) escalated b
          (All-right (Apart t) (list_tasks before active b) _ h) in
      elim holds [
        | inl e ↦ lookup-All (λ _ w. Apart t w) j b.active_dir here e
        | inr e ↦ lookup-All (λ _ w. Apart t w) j b.escalated_dir there e
      ]

  -- A listed pending task is a pending file under its id, which is safe.
  abbrev IsListed : Board → Task → Type 0
  IsListed b t =
      (unsafe_segment t.id ≡ false)
      × ((u : Task) × (lookup t.id b.pending_dir ≡ some u) × (u.file_set ≡ t.file_set))

  pending_sorted-IsListed : (b : Board) → IsBoard b → All (IsListed b) (pending_sorted before b)
  pending_sorted-IsListed b v = sort_tasks-All before (IsListed b) _ (
      list_tasks-All before (IsListed b) pending b (
        All-imp (IsSeen b.pending_dir) _ b.pending_dir
          (λ e (same, clean, seen). (
            rw same clean,
            (e.1, subst (λ k. lookup k b.pending_dir ≡ some e.1) (sym same) seen, refl),
          ))
          (IsDir-IsSeen b.pending_dir (v pending))))

  -- A claim keeps the board well formed and the locks exclusive, if no other process moves a task
  -- between its reads and its rename.
  pub claim-IsValid :
      (b : Board) (t : Task) (b' : Board)
      → IsValid b
      → claim_next_task before b b ≡ (some t, b')
      → IsValid b'
  claim-IsValid b t b' valid e =
      let (listed, deps, apart, moved) = claim_next_task_sound before b b t b' e in
      let (u, found, _, same) = move_task-some t.id pending active b moved in
      let (_, (w, seen, files)) =
        Memᴰ-All (IsListed b) listed (pending_sorted-IsListed b valid.board) in
      let uw : u.file_set ≡ t.file_set = ground arith in
      rw same (record {
        board = relocate-IsBoard t.id u pending active b valid.board found;
        exclusive = claim-exclusive t.id u b valid (λ j x h. rw uw (locked_free b t apart j x h));
      })

-- What happens to a board: a scheduler claims; a conductor settles a task that holds a lock, in any
-- state; an operator sends a task back to pending.
pub data Step (before : String → String → Bool) : Board → Board → Type 0 where
  claims : {b b' : Board} (t : Task) → claim_next_task before b b ≡ (some t, b') → Step before b b'
  settles :
      {b b' : Board} (id : String) (from to : QueueState)
      → IsLocking from
      → move_task id from to b ≡ some b'
      → Step before b b'
  requeues :
      {b b' : Board} (id : String) (from : QueueState)
      → move_task id from pending b ≡ some b'
      → Step before b b'

pub data Reach (before : String → String → Bool) (b : Board) : Board → Type 0 where
  here : Reach before b b
  next : {c d : Board} → Reach before b c → Step before c d → Reach before b d

Step-IsValid :
    (before : String → String → Bool) {b b' : Board} → Step before b b' → IsValid b → IsValid b'
Step-IsValid before (claims {b} {b'} t e) valid = claim-IsValid before b t b' valid e
Step-IsValid before (settles {b} {b'} id from to l e) valid =
    let (t, found, _, same) = move_task-some id from to b e in
    rw same (record {
      board = relocate-IsBoard id t from to b valid.board found;
      exclusive =
          exclusive-of-Holds b (relocate id t from to b) valid
            (settle-Holds id t from to b l found);
    })
Step-IsValid before (requeues {b} {b'} id from e) valid =
    let (t, found, _, same) = move_task-some id from pending b e in
    rw same (record {
      board = relocate-IsBoard id t from pending b valid.board found;
      exclusive =
          exclusive-of-Holds b (relocate id t from pending b) valid (requeue-Holds id t from b);
    })

pub Reach-IsValid :
    (before : String → String → Bool) {b c : Board} → IsValid b → Reach before b c → IsValid c
Reach-IsValid before valid here = valid
Reach-IsValid before valid (next r s) = Step-IsValid before s (Reach-IsValid before valid r)
