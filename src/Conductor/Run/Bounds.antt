-- ===== src/Conductor/Run/Bounds.antt =====
-- How often a run calls `runIteration` at most.
use autodev_harness.Common.{
  le-cases, inl, inr, ℕ, zero, suc, ◌-◌, ◌<◌, ◌≤◌, Bool, true, false, not, ◌&&◌, ◌||◌, ◌≡◌, refl,
  leb, is_some, arith, if◌then◌else◌, ap, ◌∙◌, sym,
}
use autodev_harness.Util.Fallible.{err, thrown, lift, ◌>>=◌, ◌>>◌, leaves, leaves_if}
use autodev_harness.Conductor.State.{IterationResult}
use autodev_harness.Conductor.Run.Options.{RunOptions, RunEnv, RunState, RunEnd, R}
use autodev_harness.Conductor.Run.Loop.{
  iterate, send, safe_journal, after_commit, count_iteration, reached, nap, or_stop, leave_or_go_on,
  round, loop, preflight, refuse, refused_branch, branched, run,
}
use autodev_harness.Conductor.Run.Counts.{
  after_commit-counts, nap-iterations, nap-calls, iterate-iterations, iterate-calls, same_count,
}

no_more : (a b c : ℕ) → a ≤ b → c ≡ b → a ≤ c
no_more a b c l e = omega arith

module _ (env : RunEnv) (opts : RunOptions) where
  -- A bound on the iterations: the options stop a run that has counted `m`.
  module _ (m : ℕ) (stops : (opts.once || reached opts.max_iterations m) ≡ true) where
    abbrev IsWithin : RunState → Type 0
    IsWithin s = s.calls ≤ m

    or_stop-IsWithin :
        (b : Bool) (next : R RunEnd) (v : RunState)
        → v.calls ≤ m
        → (b ≡ false → (next v).1.calls ≤ m)
        → (or_stop b next v).1.calls ≤ m
    or_stop-IsWithin true next v l k = l
    or_stop-IsWithin false next v l k = k refl

    -- At the head of the loop: fewer than `m` are counted, and no more were called.
    abbrev HasRoom : RunState → Type 0
    HasRoom s = (s.iterations < m) × (s.calls ≤ s.iterations)

    not_yet : (n : ℕ) → n ≤ m → (opts.once || reached opts.max_iterations n) ≡ false → n < m
    not_yet n l e = elim (le-cases n m l) [
      | inl h ↦
          let clash : true ≡ false =
            sym stops ∙ (sym (ap (λ j. opts.once || reached opts.max_iterations j) h) ∙ e) in
          cc
      | inr h ↦ h
    ]

    leave_or_go_on-IsWithin :
        (res : IterationResult) (again : R RunEnd) (halted : Bool) (s : RunState)
        → ((v : RunState) → HasRoom v → (again v).1.calls ≤ m)
        → s.iterations < m
        → s.calls ≤ suc s.iterations
        → (leave_or_go_on env opts res again halted s).1.calls ≤ m
    unfolding leave_or_go_on
    leave_or_go_on-IsWithin res again true s k l c = omega arith
    leave_or_go_on-IsWithin res again false s k l c =
        let counted = (count_iteration s).1 in
        let within : s.calls ≤ m = omega arith in
        let ends = opts.drain && (not (is_some res.claimed) || res.rate_limited) in
        or_stop-IsWithin (opts.once || reached opts.max_iterations (suc s.iterations))
          (or_stop ends (nap res >> again)) counted within
          λ e. or_stop-IsWithin ends (nap res >> again) counted within λ _.
            leaves IsWithin (nap res counted) (λ _. again)
              (same_count env opts (nap-calls env opts res counted) within)
              λ _ _. k (nap res counted).1 (
                same_count env opts (ap suc (nap-iterations env opts res counted))
                    (not_yet (suc s.iterations) l e),
                same_count env opts (nap-calls env opts res counted) (
                    no_more s.calls (suc s.iterations) (nap res counted).1.iterations c
                      (nap-iterations env opts res counted)),
              )

    round-IsWithin :
        (again : R RunEnd) (s : RunState)
        → ((v : RunState) → HasRoom v → (again v).1.calls ≤ m)
        → HasRoom s
        → (round env opts again s).1.calls ≤ m
    unfolding round
    round-IsWithin again s k (l, c) =
        let iterated = iterate-iterations env opts s in
        let called = iterate-calls env opts s in
        leaves IsWithin (iterate env s)
          (λ res.
            after_commit env opts.on_drift res.committed >>= leave_or_go_on env opts res again)
          (omega arith)
          λ res _.
            let (kept, same) = after_commit-counts env opts res.committed (iterate env s).1 in
            leaves IsWithin (after_commit env opts.on_drift res.committed (iterate env s).1)
              (leave_or_go_on env opts res again) (omega arith)
              λ halted _.
                leave_or_go_on-IsWithin res again halted
                  (after_commit env opts.on_drift res.committed (iterate env s).1).1 k (omega arith)
                  (omega arith)

    loop-IsWithin : (fuel : ℕ) (s : RunState) → HasRoom s → (loop env opts fuel s).1.calls ≤ m
    unfolding loop
    loop-IsWithin zero s (l, c) = omega arith
    loop-IsWithin (suc fuel) s (l, c) =
        or_stop-IsWithin (leb env.max_session (env.now s.iterations - env.start))
          (round env opts (loop env opts fuel)) s (omega arith)
          λ _. round-IsWithin (loop env opts fuel) s (loop-IsWithin fuel) (l, c)

    -- A run that starts at no iterations and no calls calls `runIteration` at most `m` times, if `m` is
    -- not 0 and the options stop a run that has counted `m` iterations: `once` with 1, or
    -- `maxIterations` with itself (a run with `maxIterations` 0 does one).
    pub run-calls :
        (fuel : ℕ) (s : RunState)
        → 1 ≤ m
        → s.iterations ≡ 0
        → s.calls ≡ 0
        → (run env opts fuel s).1.calls ≤ m
    unfolding run send safe_journal
    run-calls fuel s l e c =
        leaves IsWithin (lift env.branch s) (branched env opts fuel) (omega arith) λ branch _.
          leaves_if IsWithin (refused_branch env branch) (lift (err (thrown "refusing to run")))
            (if preflight env opts then refuse env else loop env opts fuel) s (omega arith)
            (leaves_if IsWithin (preflight env opts) (refuse env) (loop env opts fuel) s
              (ground arith) (loop-IsWithin fuel s (omega arith, omega arith)))
