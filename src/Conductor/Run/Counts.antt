-- ===== src/Conductor/Run/Counts.antt =====
-- The count of the iterations within a round.
use autodev_harness.Common.{ℕ, suc, ◌≤◌, Bool, ◌≡◌, refl, arith}
use autodev_harness.Conductor.State.{IterationResult}
use autodev_harness.Conductor.Run.Options.{RunOptions, RunEnv, RunState}
use autodev_harness.Conductor.Run.Loop.{iterate, send, safe_journal, after_commit, nap}
use autodev_harness.Conductor.Run.Kept.{IsKeptEarly, after_commit-kept}

-- Behind its iteration and up to its count a round has counted nothing.
counts-IsKeptEarly :
    (env : RunEnv) (k c : ℕ) → IsKeptEarly env (λ s. (s.iterations ≡ k) × (s.calls ≡ c))
unfolding send safe_journal
counts-IsKeptEarly env k c = record {
  by_send = λ n s p. ground arith;
  by_journal = λ n s p. ground arith;
  by_check = λ s p. p;
  by_reset = λ s p. p;
  by_commit = λ s p. p;
}

module _ (env : RunEnv) (opts : RunOptions) where
  pub after_commit-counts :
      (b : Bool) (s : RunState)
      → ((after_commit env opts.on_drift b s).1.iterations ≡ s.iterations)
        × ((after_commit env opts.on_drift b s).1.calls ≡ s.calls)
  after_commit-counts b s =
      after_commit-kept env (λ v. (v.iterations ≡ s.iterations) × (v.calls ≡ s.calls))
        (counts-IsKeptEarly env s.iterations s.calls) opts.on_drift b s (refl, refl)

  pub nap-iterations :
      (res : IterationResult) (s : RunState) → (nap res s).1.iterations ≡ s.iterations
  nap-iterations res s = ground arith

  pub nap-calls : (res : IterationResult) (s : RunState) → (nap res s).1.calls ≡ s.calls
  nap-calls res s = ground arith

  pub iterate-iterations : (s : RunState) → (iterate env s).1.iterations ≡ s.iterations
  unfolding iterate
  iterate-iterations s = refl

  -- An iteration is one call, whatever it answers.
  pub iterate-calls : (s : RunState) → (iterate env s).1.calls ≡ suc s.calls
  unfolding iterate
  iterate-calls s = refl

  pub same_count : {a b c : ℕ} → a ≡ b → b ≤ c → a ≤ c
  same_count e l = omega arith
