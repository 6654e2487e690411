-- ===== src/Conductor/Iteration/Merges.antt =====
-- Nothing is merged but what the fences, the critic, the gate and the branch check let through.
use autodev_harness.Common.{
  ◌==◌, ℕ, String, Bool, true, false, some, [], ◌≡◌, refl, ap, List, ◌∷◌, ◌∙◌, ◌⊎◌, inl, inr, arith,
  if◌then◌else◌,
}
use autodev_harness.Util.Fallible.{Result, ok, err, and_then, ◌>>=◌}
use autodev_harness.Util.Fingerprint.{
  Snapshot, worker_touched, stray_changed, forbidden_touches, oracle_glob_touches,
}
use autodev_harness.Conductor.Iteration.Stages.{gate_input}
use autodev_harness.Blackboard.{Task, QueueState}
use autodev_harness.Gate.Monad.{GateVerdict, commit}
use autodev_harness.Conductor.State.{
  CriticResult, OracleSet, Incident, Ending, World, Env, M, move, set_attempts, write_runtime,
  read_runtime, persist_verdict, escalate_and_record, Content, Verdict, clean, merged, Merge, Site,
}

-- A step that merges nothing.
abbrev pub Keeps : {A : Type 0} → M A → Type 0
Keeps m = (w : World) → (m w).1.merges ≡ w.merges

-- The merges are those before, or one more, for which `P` holds.
abbrev pub IsOneMore : (Merge → Type 0) → List Merge → List Merge → Type 0
IsOneMore P before now = (now ≡ before) ⊎ ((x : Merge) × (now ≡ x ∷ before) × P x)

-- A step that merges nothing, or once, under `P`.
abbrev pub MergesOnly : {A : Type 0} → (Merge → Type 0) → M A → Type 0
MergesOnly P m = (w : World) → IsOneMore P w.merges (m w).1.merges

-- What follows keeps the merges.
pub kept-IsOneMore :
    (P : Merge → Type 0) (before now behind : List Merge)
    → behind ≡ now
    → IsOneMore P before now
    → IsOneMore P before behind
kept-IsOneMore P before now behind k (inl same) = inl (k ∙ same)
kept-IsOneMore P before now behind k (inr (x, e, p)) = inr (x, k ∙ e, p)

follow-Keeps :
    {A B : Type 0} (r : Result A × World) (f : A → M B)
    → ((a : A) → Keeps (f a))
    → (and_then r f).1.merges ≡ r.1.merges
follow-Keeps (ok a, w) f h = h a w
follow-Keeps (err e, w) f h = refl

follow-MergesOnly :
    {A B : Type 0} (P : Merge → Type 0) (n : List Merge) (r : Result A × World) (f : A → M B)
    → r.1.merges ≡ n
    → ((a : A) → r.0 ≡ ok a → MergesOnly P (f a))
    → IsOneMore P n (and_then r f).1.merges
follow-MergesOnly P n (ok a, w) f k h = elim (h a refl w) [
  | inl same ↦ inl (same ∙ k)
  | inr (x, e, p) ↦ inr (x, e ∙ ap (λ ms. x ∷ ms) k, p)
]
follow-MergesOnly P n (err e, w) f k h = inl k

pub then_Keeps :
    {A B : Type 0} (m : M A) (f : A → M B) → Keeps m → ((a : A) → Keeps (f a)) → Keeps (m >>= f)
then_Keeps m f k h w = follow-Keeps (m w) f h ∙ k w

module _ {P : Merge → Type 0} where
  pub only : {A : Type 0} (m : M A) → Keeps m → MergesOnly P m
  only m k w = inl (k w)

  pub then_MergesOnly :
      {A B : Type 0} (m : M A) (f : A → M B)
      → Keeps m
      → ((a : A) → (v : World) × ((m v).0 ≡ ok a) → MergesOnly P (f a))
      → MergesOnly P (m >>= f)
  then_MergesOnly m f k h w = follow-MergesOnly P w.merges (m w) f (k w) (λ a e. h a (w, e))

  pub choose-MergesOnly :
      {A : Type 0} (b : Bool) (m n : M A)
      → (b ≡ true → MergesOnly P m)
      → (b ≡ false → MergesOnly P n)
      → MergesOnly P (if b then m else n)
  choose-MergesOnly true m n h k = h refl
  choose-MergesOnly false m n h k = k refl

-- The repository's own steps.
module _ (env : Env) where
  pub move-Keeps : (id : String) (from to : QueueState) → Keeps (move env id from to)
  unfolding move
  move-Keeps id from to w = ground arith

  pub set_attempts-Keeps : (id : String) (n : ℕ) → Keeps (set_attempts env id n)
  unfolding set_attempts
  set_attempts-Keeps id n w = ground arith

  pub write-Keeps : (name : String) (c : Content) → Keeps (write_runtime env name c)
  unfolding write_runtime
  write-Keeps name c w = ground arith

  pub read-Keeps : (name : String) → Keeps (read_runtime env name)
  unfolding read_runtime
  read-Keeps name w = ground arith

  pub persist-Keeps : (v : Verdict) → Keeps (persist_verdict env v)
  unfolding persist_verdict
  persist-Keeps v w = ground arith

  pub escalate-Keeps :
      (id : String) (i : Incident) (o : Ending) → Keeps (escalate_and_record env id i o)
  unfolding escalate_and_record
  escalate-Keeps id i o w = ground arith

-- What stands behind a merge: the gate's decision on the task in its worktree, the branch, the commit
-- of the task's files there, and that it is this worktree that was merged, into this branch.
pub record IsReleased (env : Env) (task : Task) (site : Site) (x : Merge) : Type 0 where
  pub gate : GateVerdict
  pub answered : (env.run_gate (gate_input task) site.worktree) ≡ ok gate
  pub commits : gate.decision ≡ commit
  pub same_branch : env.branch_at_commit ≡ ok site.branch
  pub not_main : (site.branch == "main") ≡ false
  pub allowed : env.allowed_branch site.branch ≡ true
  pub committed : env.commit_files site.worktree task.file_set ≡ ok x.commit
  pub merges : env.merge_after_gate site.worktree site.branch ≡ ok merged
  pub from_worktree : x.worktree ≡ site.worktree
  pub into_branch : x.target ≡ site.branch

-- What stands behind a round that reached the gate: a worker that touched no oracle, nothing
-- outside its file set and nothing forbidden, and a clean verdict on its diff.
pub record IsReviewed (env : Env) (task : Task) (site : Site) (r : ℕ) : Type 0 where
  pub set : OracleSet
  pub base : Snapshot
  pub after : Snapshot
  pub diff : String
  pub answer : CriticResult
  pub verdict : Verdict
  pub resolved : env.resolve_oracle_set r ≡ ok set
  pub began : env.changed_before site.worktree r ≡ ok base
  pub ended : env.changed_after site.worktree r ≡ ok after
  pub no_drift :
      worker_touched (env.oracle_before site.worktree r set) (env.oracle_after site.worktree r set)
      ≡ []
  pub no_oracle : oracle_glob_touches (worker_touched base after) set.globs ≡ []
  pub in_scope : stray_changed (worker_touched base after) task.file_set env.dirty_fence_ignore ≡ []
  pub permitted : forbidden_touches (worker_touched base after) task.forbidden_paths ≡ []
  pub diffed : env.worktree_diff site.worktree task.file_set r ≡ ok diff
  pub judged : env.critic_run r diff ≡ ok answer
  pub given : answer.verdict ≡ some verdict
  pub cleared : verdict.verdict ≡ clean

-- A round `r` was reviewed, and its outcome was released.
pub record IsApproved (env : Env) (task : Task) (site : Site) (x : Merge) : Type 0 where
  pub round : ℕ
  pub reviewed : IsReviewed env task site round
  pub released : IsReleased env task site x
