-- ===== src/Conductor/Iteration/Travels/Rules.antt =====
-- Which steps of an iteration move the board along the scheduler's steps.
use autodev_harness.Common.{
  String, Bool, true, false, ◌≡◌, inl, inr, arith, if◌then◌else◌, Option-cases, Bool-cases,
}
use autodev_harness.Util.Fallible.{Result, ok, err, and_then, ◌>>=◌}
use mathlib.Core.Path.{subst, sym}
use autodev_harness.Blackboard.{Board, QueueState, active, move_task}
use autodev_harness.Scheduler.Locks.{Reach, here, next, settles}
use autodev_harness.Conductor.State.{
  Incident, Ending, Content, Verdict, World, Env, M, move, escalate_and_record, set_attempts,
  write_runtime, read_runtime, persist_verdict,
}

pub Reach-trans :
    (before : String → String → Bool) {b c d : Board}
    → Reach before b c
    → Reach before c d
    → Reach before b d
Reach-trans before p here = p
Reach-trans before p (next q s) = next (Reach-trans before p q) s

pub Reach-same : (before : String → String → Bool) {b c : Board} → c ≡ b → Reach before b c
Reach-same before {b} {c} e = subst (λ x. Reach before b x) (sym e) here

module _ (env : Env) where
  -- A step that takes the board along claims, settlements and requeues.
  abbrev pub Travels : {A : Type 0} → M A → Type 0
  Travels m = (w : World) → Reach env.before w.board (m w).1.board

  follow-Travels :
      {A B : Type 0} (b : Board) (r : Result A × World) (f : A → M B)
      → Reach env.before b r.1.board
      → ((a : A) → Travels (f a))
      → Reach env.before b (and_then r f).1.board
  follow-Travels b (ok a, w) f p h = Reach-trans env.before p (h a w)
  follow-Travels b (err e, w) f p h = p

  pub then_Travels :
      {A B : Type 0} (m : M A) (f : A → M B)
      → Travels m
      → ((a : A) → Travels (f a))
      → Travels (m >>= f)
  then_Travels m f p h w = follow-Travels w.board (m w) f (p w) h

  pub choose-Travels :
      {A : Type 0} (b : Bool) (m n : M A) → Travels m → Travels n → Travels (if b then m else n)
  choose-Travels true m n p q = p
  choose-Travels false m n p q = q

  -- Whatever keeps the board.
  pub still : {A : Type 0} (m : M A) → ((w : World) → (m w).1.board ≡ w.board) → Travels m
  still m h w = Reach-same env.before (h w)

  pub move-Travels : (id : String) (to : QueueState) → Travels (move env id active to)
  unfolding move
  move-Travels id to w = elim (Bool-cases (env.move_fault w.renames active to)) [
    | inl faulty ↦ rw faulty here
    | inr fine ↦ elim (Option-cases (move_task id active to w.board)) [
      | inl missing ↦ rw (fine, missing) here
      | inr (b, moved) ↦ rw (fine, moved) (next here (settles id active to tt moved))
    ]
  ]

  pub escalate-Travels :
      (id : String) (i : Incident) (o : Ending) → Travels (escalate_and_record env id i o)
  unfolding escalate_and_record
  escalate-Travels id i o = still (escalate_and_record env id i o) (λ w. ground arith)

  pub set_attempts-Travels : (id : String) (n : _) → Travels (set_attempts env id n)
  unfolding set_attempts
  set_attempts-Travels id n = still (set_attempts env id n) (λ w. ground arith)

  pub write-Travels : (name : String) (c : Content) → Travels (write_runtime env name c)
  unfolding write_runtime
  write-Travels name c = still (write_runtime env name c) (λ w. ground arith)

  pub read-Travels : (name : String) → Travels (read_runtime env name)
  unfolding read_runtime
  read-Travels name = still (read_runtime env name) (λ w. ground arith)

  pub persist-Travels : (v : Verdict) → Travels (persist_verdict env v)
  unfolding persist_verdict
  persist-Travels v = still (persist_verdict env v) (λ w. ground arith)
