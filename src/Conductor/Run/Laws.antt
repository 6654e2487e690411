-- ===== src/Conductor/Run/Laws.antt =====
-- What a run keeps, and what it refuses.
use autodev_harness.Common.{
  ℕ, String, Bool, true, false, [], ◌≡◌, refl, arith, ◌∙◌, sym, ◌⊎◌, inl, inr, if◌then◌else◌,
  eq_iff,
}
use mathlib.Core.Path.{subst}
use autodev_harness.Util.Fallible.{ok, err, thrown, lift, leaves}
use autodev_harness.Blackboard.{Board}
use autodev_harness.Scheduler.Locks.{IsValid}
use autodev_harness.Conductor.State.{World, IterationResult}
use autodev_harness.Conductor.Iteration.{run_iteration}
use autodev_harness.Conductor.Iteration.Refines.{run_iteration-IsValid}
use autodev_harness.Conductor.Run.Options.{RunOptions, RunEnv, RunState, Notice, R, RunEnd}
use autodev_harness.Conductor.Run.Loop.{
  entering, iterate, send, safe_journal, preflight, refuse, refused_branch, branched, run, nap,
  loop,
}
use autodev_harness.Conductor.Run.Kept.{IsKept, run-kept}

module _ (env : RunEnv) (s : RunState) where
  send-world : (n : Notice) → s.world ≡ (send env n s).1.world
  unfolding send
  send-world n = ground arith

  safe_journal-world : (n : Notice) → s.world ≡ (safe_journal env n s).1.world
  unfolding safe_journal
  safe_journal-world n = ground arith

  nap-world : (res : IterationResult) → s.world ≡ (nap res s).1.world
  nap-world res = ground arith

-- A property of the world that every iteration keeps.
world-IsKept :
    (env : RunEnv) (opts : RunOptions) (P : World → Type 0)
    → ((s : RunState) → P s.world → P (iterate env s).1.world)
    → IsKept env opts (λ s. P s.world)
unfolding send safe_journal
world-IsKept env opts P h = record {
  by_iterate = h;
  early = record {
    by_send = λ n s p. subst P (send-world env s n) p;
    by_journal = λ n s p. subst P (safe_journal-world env s n) p;
    by_check = λ s p. p;
    by_reset = λ s p. p;
    by_commit = λ s p. p;
  };
  by_iteration = λ s p. p;
  by_nap = λ res s g p. subst P (nap-world env s res) p;
}

iterate-IsValid :
    (env : RunEnv) (s : RunState)
    → ((k : ℕ) (b : Board) → env.seen k b ≡ b)
    → IsValid s.world.board
    → IsValid (iterate env s).1.world.board
unfolding iterate
iterate-IsValid env s h valid =
    subst
      (λ b.
        IsValid
          (run_iteration (env.iteration s.iterations) b
            (entering env s.iterations s.world)).1.board)
      (sym (h s.iterations s.world.board))
      (run_iteration-IsValid (env.iteration s.iterations) (entering env s.iterations s.world) valid)

naps-IsKept :
    (env : RunEnv) (opts : RunOptions) → opts.drain ≡ true → IsKept env opts (λ s. s.naps ≡ [])
unfolding send safe_journal iterate
naps-IsKept env opts d = record {
  by_iterate = λ s p. p;
  early = record {
    by_send = λ n s p. ground arith;
    by_journal = λ n s p. ground arith;
    by_check = λ s p. p;
    by_reset = λ s p. p;
    by_commit = λ s p. p;
  };
  by_iteration = λ s p. p;
  by_nap = λ res s g p. ground arith;
}

-- A branch that a run refuses, or a north star that an unattended run misses.
abbrev pub IsRefused : RunEnv → RunOptions → String → Type 0
IsRefused env opts branch =
    (branch ≡ "main") ⊎ ((env.allowed_branch branch ≡ false) ⊎ (preflight env opts ≡ true))

if_world :
    (b : Bool) (m k : R RunEnd) (s : RunState)
    → (m s).1.world ≡ s.world
    → (b ≡ false → (k s).1.world ≡ s.world)
    → ((if b then m else k) s).1.world ≡ s.world
if_world true m k s h g = h
if_world false m k s h g = g refl

ok_injective : {A : Type 0} {x y : A} → ok x ≡ ok y → x ≡ y
ok_injective e = cc

module _ (env : RunEnv) (opts : RunOptions) where
  refused_lem :
      (branch : String)
      → IsRefused env opts branch
      → refused_branch env branch ≡ false
      → preflight env opts ≡ true
  refused_lem branch (inl e) h = ground (arith, eq_iff branch "main")
  refused_lem branch (inr (inl e)) h = ground arith
  refused_lem branch (inr (inr e)) h = e

  refuse-world : (s : RunState) → (refuse env s).1.world ≡ s.world
  unfolding send safe_journal
  refuse-world s = ground arith

  branched-world :
      (fuel : ℕ) (s : RunState) (branch : String)
      → IsRefused env opts branch
      → (branched env opts fuel branch s).1.world ≡ s.world
  branched-world fuel s branch h =
      if_world (refused_branch env branch) (lift (err (thrown "refusing to run")))
        (if preflight env opts then refuse env else loop env opts fuel) s refl
        λ e.
          if_world (preflight env opts) (refuse env) (loop env opts fuel) s (refuse-world s)
            λ f. let clash : true ≡ false = sym (refused_lem branch h e) ∙ f in cc

  -- If every scheduler reads the board at which it renames, a run that starts on a valid board ends
  -- on one, however long it is and whatever it answers or throws: two tasks that are active or
  -- escalated under different names share no normalised path.
  pub run-IsValid :
      (fuel : ℕ) (s : RunState)
      → ((k : ℕ) (b : Board) → env.seen k b ≡ b)
      → IsValid s.world.board
      → IsValid (run env opts fuel s).1.world.board
  run-IsValid fuel s h valid =
      run-kept env opts (λ v. IsValid v.world.board)
        (world-IsKept env opts (λ w. IsValid w.board) λ v p. iterate-IsValid env v h p) fuel s valid

  -- A drain never sleeps: a run in drain mode that starts without naps ends without.
  run-naps :
      (fuel : ℕ) (s : RunState)
      → opts.drain ≡ true
      → s.naps ≡ []
      → (run env opts fuel s).1.naps ≡ []
  run-naps fuel s d e = run-kept env opts (λ v. v.naps ≡ []) (naps-IsKept env opts d) fuel s e

  -- On main or a branch that is not allowed, and unattended with a silent north star, a run leaves the world as it was,
  -- whatever the preflight's escalation and journal do.
  pub run-world :
      (fuel : ℕ) (s : RunState) (branch : String)
      → env.branch ≡ ok branch
      → IsRefused env opts branch
      → (run env opts fuel s).1.world ≡ s.world
  unfolding run
  run-world fuel s branch b h =
      leaves (λ v. v.world ≡ s.world) (lift env.branch s) (branched env opts fuel) refl
        λ found e.
          branched-world fuel s found (subst (IsRefused env opts) (ok_injective (sym b ∙ e)) h)
