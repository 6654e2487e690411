-- ===== src/Conductor/Run/Ends.antt =====
-- A run ends when the session is over.
use autodev_harness.Common.{
  le-cases, inl, inr, ℕ, zero, suc, ◌+◌, ◌-◌, ◌<◌, ◌≤◌, Bool, true, false, not, ◌&&◌, ◌||◌, ◌≡◌,
  ◌≢◌, refl, leb, is_some, arith, if◌then◌else◌, ap, ◌∙◌, sym, String,
}
use autodev_harness.Util.Fallible.{ok, err, thrown, lift, ◌>>=◌, ◌>>◌, answers}
use autodev_harness.Conductor.State.{IterationResult}
use autodev_harness.Conductor.Run.Options.{RunOptions, RunEnv, RunState, RunEnd, cut_off, R}
use autodev_harness.Conductor.Run.Loop.{
  iterate, send, safe_journal, after_commit, count_iteration, reached, nap, or_stop, leave_or_go_on,
  round, loop, preflight, refuse, refused_branch, branched, run,
}
use autodev_harness.Conductor.Run.Counts.{
  after_commit-counts, nap-iterations, iterate-iterations, same_count,
}

if_else :
    (b : Bool) (m k : R RunEnd) (s : RunState)
    → (m s).0 ≢ ok cut_off
    → (k s).0 ≢ ok cut_off
    → ((if b then m else k) s).0 ≢ ok cut_off
if_else true m k s h g = h
if_else false m k s h g = g

module _ (env : RunEnv) (opts : RunOptions) where
  -- The clock ends the loop.
  module _ (n : ℕ) (over : leb env.max_session (env.now n - env.start) ≡ true) where
    or_stop_ends :
        (b : Bool) (next : R RunEnd) (v : RunState)
        → (b ≡ false → (next v).0 ≢ ok cut_off)
        → (or_stop b next v).0 ≢ ok cut_off
    or_stop_ends true next v k e = cc
    or_stop_ends false next v k e = k refl e

    leave_or_go_on_ends :
        (res : IterationResult) (again : R RunEnd) (halted : Bool) (s : RunState)
        → ((v : RunState)
            → v.iterations ≤ n
            → v.iterations ≡ suc s.iterations
            → (again v).0 ≢ ok cut_off)
        → s.iterations < n
        → (leave_or_go_on env opts res again halted s).0 ≢ ok cut_off
    unfolding leave_or_go_on
    leave_or_go_on_ends res again true s k l = λ e. cc
    leave_or_go_on_ends res again false s k l =
        or_stop_ends (opts.once || reached opts.max_iterations (suc s.iterations))
          (or_stop (opts.drain && (not (is_some res.claimed) || res.rate_limited))
            (nap res >> again))
          (count_iteration s).1
          λ _.
            or_stop_ends (opts.drain && (not (is_some res.claimed) || res.rate_limited))
              (nap res >> again) (count_iteration s).1
              λ _ e.
                answers (nap res (count_iteration s).1) (λ _. again) e
                  λ _ _ rest.
                    let napped = nap-iterations env opts res (count_iteration s).1 in
                    k (nap res (count_iteration s).1).1 (same_count env opts napped l) napped rest

    round_ends :
        (again : R RunEnd) (s : RunState)
        → ((v : RunState)
            → v.iterations ≤ n
            → v.iterations ≡ suc s.iterations
            → (again v).0 ≢ ok cut_off)
        → s.iterations < n
        → (round env opts again s).0 ≢ ok cut_off
    unfolding round
    round_ends again s k l e =
        answers (iterate env s)
          (λ res.
            after_commit env opts.on_drift res.committed >>= leave_or_go_on env opts res again)
          e
          λ res _ rest.
            answers (after_commit env opts.on_drift res.committed (iterate env s).1)
              (leave_or_go_on env opts res again) rest
              λ halted _ end.
                let now = after_commit env opts.on_drift res.committed (iterate env s).1 in
                let same : now.1.iterations ≡ s.iterations =
                  (after_commit-counts env opts res.committed (iterate env s).1).0
                  ∙ iterate-iterations env opts s in
                leave_or_go_on_ends res again halted now.1 (λ v b c. k v b (c ∙ ap suc same))
                  (same_count env opts (ap suc same) l) end

    not_over : (i : ℕ) → i ≤ n → leb env.max_session (env.now i - env.start) ≡ false → i < n
    not_over i l e = elim (le-cases i n l) [
      | inl h ↦
          let clash : true ≡ false =
            sym over ∙ (sym (ap (λ j. leb env.max_session (env.now j - env.start)) h) ∙ e) in
          cc
      | inr h ↦ h
    ]

    loop_ends :
        (fuel : ℕ) (s : RunState)
        → s.iterations ≤ n
        → n < s.iterations + fuel
        → (loop env opts fuel s).0 ≢ ok cut_off
    unfolding loop
    loop_ends zero s l b = λ e. absurd (omega arith)
    loop_ends (suc fuel) s l b =
        or_stop_ends (leb env.max_session (env.now s.iterations - env.start))
          (round env opts (loop env opts fuel)) s
          λ e.
            round_ends (loop env opts fuel) s (λ v c d. loop_ends fuel v c (omega arith))
              (not_over s.iterations l e)

    refuse_ends : (s : RunState) → (refuse env s).0 ≢ ok cut_off
    unfolding send safe_journal
    refuse_ends s e = ground arith

    branched_ends :
        (fuel : ℕ) (branch : String) (s : RunState)
        → s.iterations ≡ 0
        → n < fuel
        → (branched env opts fuel branch s).0 ≢ ok cut_off
    branched_ends fuel branch s z b e =
        if_else (refused_branch env branch) (lift (err (thrown "refusing to run")))
          (if preflight env opts then refuse env else loop env opts fuel) s (λ h. cc)
          (if_else (preflight env opts) (refuse env) (loop env opts fuel) s (refuse_ends s)
            (loop_ends fuel s (omega arith) (omega arith)))
          e

    -- If the session is over by the clock's reading `n`, a run that starts at no iterations on more
    -- fuel than `n` is never cut off: it stops or throws.
    pub run_ends :
        (fuel : ℕ) (s : RunState)
        → s.iterations ≡ 0
        → n < fuel
        → (run env opts fuel s).0 ≢ ok cut_off
    unfolding run
    run_ends fuel s z b e =
        answers (lift env.branch s) (branched env opts fuel) e
          λ branch _ rest. branched_ends fuel branch s z b rest
