-- ===== src/Conductor/Run/Kept.antt =====
-- What each step of a run keeps, the run keeps, whatever throws.
use autodev_harness.Common.{
  ℕ, zero, suc, ◌-◌, String, Bool, true, false, not, ◌&&◌, ◌||◌, ◌≡◌, refl, leb, is_some, ap,
  if◌then◌else◌,
}
use autodev_harness.Util.Fallible.{err, thrown, pure, lift, ◌>>=◌, ◌>>◌, leaves, leaves_if}
use autodev_harness.Conductor.State.{IterationResult}
use autodev_harness.Conductor.Run.Options.{
  is_drift, OnDrift, halt_drain, escalate_task, RunOptions, RunEnv, Notice, drift,
  silent_north_star, RunState, RunEnd, stopped, R,
}
use autodev_harness.Conductor.Run.Loop.{
  iterate, send, safe_journal, reset_window, on_drifted, on_line, check_window, window_full,
  count_commit, after_commit, count_iteration, reached, nap, or_stop, leave_or_go_on, round, loop,
  preflight, refuse, refused_branch, branched, run,
}

-- The iteration does not end a drain.
abbrev pub goes_on : RunOptions → IterationResult → Bool
goes_on opts res = not (opts.drain && (not (is_some res.claimed) || res.rate_limited))

-- The steps of a round between the iteration and the count.
pub record IsKeptEarly (env : RunEnv) (P : RunState → Type 0) : Type 0 where
  pub by_send : (n : Notice) (s : RunState) → P s → P (send env n s).1
  pub by_journal : (n : Notice) (s : RunState) → P s → P (safe_journal env n s).1
  pub by_check : (s : RunState) → P s → P (check_window env s).1
  pub by_reset : (s : RunState) → P s → P (reset_window s).1
  pub by_commit : (s : RunState) → P s → P (count_commit s).1

pub record IsKept (env : RunEnv) (opts : RunOptions) (P : RunState → Type 0) : Type 0 where
  pub early : IsKeptEarly env P
  pub by_iterate : (s : RunState) → P s → P (iterate env s).1
  pub by_iteration : (s : RunState) → P s → P (count_iteration s).1
  pub by_nap :
      (res : IterationResult) (s : RunState) → goes_on opts res ≡ true → P s → P (nap res s).1

module _ (env : RunEnv) (P : RunState → Type 0) (kept : IsKeptEarly env P) where
  on_drifted-kept :
      (policy : OnDrift) (line : String) (s : RunState) → P s → P (on_drifted env policy line s).1
  on_drifted-kept halt_drain line s p =
      let journaled = kept.by_journal (drift line) s p in
      leaves P (safe_journal env (drift line) s) (λ _. pure true) journaled λ _ _. journaled
  on_drifted-kept escalate_task line s p = kept.by_reset s p

  on_line-kept :
      (policy : OnDrift) (line : String) (s : RunState) → P s → P (on_line env policy line s).1
  unfolding on_line
  on_line-kept policy line s p =
      leaves_if P (is_drift line) (send env (drift line) >> on_drifted env policy line)
        (reset_window) s
        (leaves P (send env (drift line) s) (λ _. on_drifted env policy line)
          (kept.by_send (drift line) s p)
          λ _ _.
            on_drifted-kept policy line (send env (drift line) s).1 (kept.by_send (drift line) s p))
        (kept.by_reset s p)

  window_full-kept : (policy : OnDrift) (s : RunState) → P s → P (window_full env policy s).1
  unfolding window_full
  window_full-kept policy s p =
      leaves_if P (leb env.every_commits s.commits_since_drift)
        (check_window env >>= on_line env policy) (pure false) s
        (leaves P (check_window env s) (on_line env policy) (kept.by_check s p)
          λ line _. on_line-kept policy line (check_window env s).1 (kept.by_check s p))
        p

  pub after_commit-kept :
      (policy : OnDrift) (b : Bool) (s : RunState) → P s → P (after_commit env policy b s).1
  unfolding after_commit
  after_commit-kept policy true s p =
      window_full-kept policy (count_commit s).1 (kept.by_commit s p)
  after_commit-kept policy false s p = p

module _ (env : RunEnv) (opts : RunOptions) (P : RunState → Type 0) (kept : IsKept env opts P) where
  napped :
      (b : Bool) (res : IterationResult) (again : R RunEnd) (s : RunState)
      → (opts.drain && (not (is_some res.claimed) || res.rate_limited)) ≡ b
      → ((v : RunState) → P v → P (again v).1)
      → P s
      → P (or_stop b (nap res >> again) s).1
  napped true res again s e k p = p
  napped false res again s e k p =
      let rested = kept.by_nap res s (ap not e) p in
      leaves P (nap res s) (λ _. again) rested λ _ _. k (nap res s).1 rested

  leave_or_go_on-kept :
      (res : IterationResult) (again : R RunEnd) (halted : Bool) (s : RunState)
      → ((v : RunState) → P v → P (again v).1)
      → P s
      → P (leave_or_go_on env opts res again halted s).1
  unfolding leave_or_go_on
  leave_or_go_on-kept res again true s k p = p
  leave_or_go_on-kept res again false s k p =
      let counted = kept.by_iteration s p in
      leaves_if P (opts.once || reached opts.max_iterations (suc s.iterations)) (pure stopped)
        (or_stop (opts.drain && (not (is_some res.claimed) || res.rate_limited)) (nap res >> again))
        (count_iteration s).1 counted
        (napped (opts.drain && (not (is_some res.claimed) || res.rate_limited)) res again
          (count_iteration s).1 refl k counted)

  round-kept :
      (again : R RunEnd) (s : RunState)
      → ((v : RunState) → P v → P (again v).1)
      → P s
      → P (round env opts again s).1
  unfolding round
  round-kept again s k p =
      leaves P (iterate env s)
        (λ res. after_commit env opts.on_drift res.committed >>= leave_or_go_on env opts res again)
        (kept.by_iterate s p)
        λ res _.
          leaves P (after_commit env opts.on_drift res.committed (iterate env s).1)
            (leave_or_go_on env opts res again)
            (after_commit-kept env P kept.early opts.on_drift res.committed (iterate env s).1
              (kept.by_iterate s p))
            λ halted _.
              leave_or_go_on-kept res again halted
                (after_commit env opts.on_drift res.committed (iterate env s).1).1 k
                (after_commit-kept env P kept.early opts.on_drift res.committed (iterate env s).1
                  (kept.by_iterate s p))

  pub loop-kept : (fuel : ℕ) (s : RunState) → P s → P (loop env opts fuel s).1
  unfolding loop
  loop-kept zero s p = p
  loop-kept (suc fuel) s p =
      leaves_if P (leb env.max_session (env.now s.iterations - env.start)) (pure stopped)
        (round env opts (loop env opts fuel)) s p
        (round-kept (loop env opts fuel) s (loop-kept fuel) p)

  refuse-kept : (s : RunState) → P s → P (refuse env s).1
  refuse-kept s p =
      let told = kept.early.by_send silent_north_star s p in
      let noted = kept.early.by_journal silent_north_star (send env silent_north_star s).1 told in
      leaves P (send env silent_north_star s)
        (λ _. safe_journal env silent_north_star >> pure stopped) told
        λ _ _.
          leaves P (safe_journal env silent_north_star (send env silent_north_star s).1)
            (λ _. pure stopped) noted λ _ _. noted

  pub run-kept : (fuel : ℕ) (s : RunState) → P s → P (run env opts fuel s).1
  unfolding run
  run-kept fuel s p = leaves P (lift env.branch s) (branched env opts fuel) p λ branch _.
      leaves_if P (refused_branch env branch) (lift (err (thrown "refusing to run")))
        (if preflight env opts then refuse env else loop env opts fuel) s p
        (leaves_if P (preflight env opts) (refuse env) (loop env opts fuel) s (refuse-kept s p)
          (loop-kept fuel s p))
