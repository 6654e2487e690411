-- ===== src/Conductor/Iteration/Leaving.antt =====
-- How the task of an iteration leaves `active`: rules for sequences, choices and renames.
use autodev_harness.Common.{
  String, Bool, true, false, none, some, ◌≡◌, ◌≢◌, refl, inl, inr, arith, lookup, lookup-remove,
  eq_refl, Bool-cases, Option-cases, if◌then◌else◌,
}
use autodev_harness.Util.Fallible.{Result, ok, err, and_then, ◌>>=◌}
use autodev_harness.Blackboard.{Board, QueueState, active, unsafe_segment, move_task}
use autodev_harness.Blackboard.Moves.{move_task-some, move_task_found}
use autodev_harness.Conductor.State.{Incident, Ending, World, Env, M, move, escalate_and_record}

-- The task of an iteration has left `active`.
abbrev pub HasLeft : String → World → Type 0
HasLeft id w = lookup id w.board.active_dir ≡ none

-- An answer leaves nothing of the task in `active`.
abbrev pub Clears : {A : Type 0} → String → M A → Type 0
Clears {A} id m = (w : World) (a : A) → (m w).0 ≡ ok a → HasLeft id (m w).1

-- A step that keeps the board.
abbrev pub KeepsBoard : {A : Type 0} → M A → Type 0
KeepsBoard m = (w : World) → (m w).1.board ≡ w.board

pub follow-Clears :
    {A B : Type 0} (id : String) (r : Result A × World) (f : A → M B)
    → ((a : A) → Clears id (f a))
    → (b : B) → (and_then r f).0 ≡ ok b
    → HasLeft id (and_then r f).1
follow-Clears id (ok a, w) f h b e = h a w b e
follow-Clears id (err x, w) f h b e = absurd cc

pub after-Clears :
    {A B : Type 0} (id : String) (r : Result A × World) (f : A → M B)
    → ((a : A) → r.0 ≡ ok a → HasLeft id r.1)
    → ((a : A) → KeepsBoard (f a))
    → (b : B) → (and_then r f).0 ≡ ok b
    → HasLeft id (and_then r f).1
after-Clears id (ok a, w) f h k b e = rw (k a w) (h a refl)
after-Clears id (err x, w) f h k b e = absurd cc

module _ {A B : Type 0} (id : String) (m : M A) (f : A → M B) where
  pub then_Clears : ((a : A) → Clears id (f a)) → Clears id (m >>= f)
  then_Clears h w = follow-Clears id (m w) f h

  pub Clears-then : Clears id m → ((a : A) → KeepsBoard (f a)) → Clears id (m >>= f)
  Clears-then h k w = after-Clears id (m w) f (h w) k

-- A rename out of `active` that answers.
pub move_task-HasLeft :
    (id : String) (to : QueueState) (b b' : Board)
    → to ≢ active
    → move_task id active to b ≡ some b'
    → lookup id b'.active_dir ≡ none
move_task-HasLeft id active b b' ne e = absurd (ne refl)
move_task-HasLeft id _ b b' ne e =
    let (t, found, safe, same) = move_task-some id active _ b e in
    rw same (ground (arith, lookup-remove id id b.active_dir, eq_refl id))

module _ (env : Env) (id : String) where
  pub move-Clears : (to : QueueState) → to ≢ active → Clears id (move env id active to)
  unfolding move
  move-Clears to ne w a e = elim (Bool-cases (env.move_fault w.renames active to)) [
    | inl faulty ↦ absurd (ground arith)
    | inr fine ↦ elim (Option-cases (move_task id active to w.board)) [
      | inl missing ↦ absurd (ground arith)
      | inr (b, moved) ↦ rw (fine, moved) (move_task-HasLeft id to w.board b ne moved)
    ]
  ]

  pub escalate-KeepsBoard :
      (incident : Incident) (outcome : Ending)
      → KeepsBoard (escalate_and_record env id incident outcome)
  unfolding escalate_and_record
  escalate-KeepsBoard incident outcome w = ground arith

pub choose-Clears :
    {A : Type 0} (id : String) (b : Bool) (m n : M A)
    → Clears id m
    → Clears id n
    → Clears id (if b then m else n)
choose-Clears id true m n h k = h
choose-Clears id false m n h k = k

-- The backstop's move takes out whatever is left.
pub move-HasLeft :
    (env : Env) (id : String) (to : QueueState) (w : World)
    → to ≢ active
    → env.move_fault w.renames active to ≡ false
    → unsafe_segment id ≡ false
    → HasLeft id (move env id active to w).1
unfolding move
move-HasLeft env id to w ne fine safe = elim (Option-cases (lookup id w.board.active_dir)) [
  | inl gone ↦ elim (Option-cases (move_task id active to w.board)) [
    | inl missing ↦ rw (fine, missing) gone
    | inr (b, moved) ↦ rw (fine, moved) (move_task-HasLeft id to w.board b ne moved)
  ]
  | inr (t, found) ↦
      let moved = move_task_found id active to w.board t found safe in
      rw (fine, moved) (move_task-HasLeft id to w.board _ ne moved)
]
