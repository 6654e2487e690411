-- ===== src/Conductor/Run/Loop.antt =====
-- The loop and its steps.
use autodev_harness.Common.{
  ℕ, zero, suc, ◌-◌, String, Bool, true, false, not, ◌&&◌, ◌||◌, Option, none, some, ◌∷◌, ◌==◌, leb,
  is_some, if◌then◌else◌,
}
use autodev_harness.Util.Fallible.{Result, ok, err, thrown, pure, lift, ◌>>=◌, ◌>>◌}
use autodev_harness.Conductor.State.{World, IterationResult}
use autodev_harness.Conductor.Iteration.{run_iteration}
use autodev_harness.Conductor.Run.Options.{
  is_north_star_silent, is_drift, OnDrift, halt_drain, escalate_task, RunOptions, RunEnv, Notice,
  silent_north_star, drift, backoff, idle, RunState, RunEnd, stopped, cut_off, R,
}

abbrev pub set_world : RunState → Result IterationResult × World → Result IterationResult × RunState
set_world s (r, w) = (r, record s { world = w })

abbrev pub reset_window : R Bool
reset_window s = (ok false, record s { commits_since_drift = 0 })

abbrev pub count_commit : R (Unit {0})
count_commit s = (ok tt, record s { commits_since_drift = suc s.commits_since_drift })

abbrev pub count_iteration : R (Unit {0})
count_iteration s = (ok tt, record s { iterations = suc s.iterations })

abbrev pub reached : Option ℕ → ℕ → Bool
reached none n = false
reached (some m) n = leb m n

abbrev pub nap : IterationResult → R (Unit {0})
nap res s =
    if res.rate_limited
    then (ok tt, record s { naps = backoff ∷ s.naps })
    else if is_some res.claimed
    then (ok tt, s)
    else (ok tt, record s { naps = idle ∷ s.naps })

abbrev pub or_stop : Bool → R RunEnd → R RunEnd
or_stop b next = if b then pure stopped else next

abbrev pub readable : Result (Option String) → Option String
readable (ok text) = text
readable (err e) = none

module _ (env : RunEnv) where
  -- The world at the start of iteration `k`.
  abbrev pub entering : ℕ → World → World
  entering k w = record w { runtime = env.runtime_files k; ledger = none }

  -- `runIteration` within the run.
  unfoldable pub iterate : R IterationResult
  iterate s =
      set_world (record s { calls = suc s.calls })
        (run_iteration (env.iteration s.iterations) (env.seen s.iterations s.world.board)
          (entering s.iterations s.world))

  -- `escalate`, and `safeJournal`, whose failure is ignored.
  unfoldable pub send : Notice → R (Unit {0})
  send n s =
      if env.notice_fault s.iterations
      then (err (thrown "escalate"), s)
      else (ok tt, record s { notices = n ∷ s.notices })

  unfoldable pub safe_journal : Notice → R (Unit {0})
  safe_journal n s =
      if env.journal_fault s.iterations
      then (ok tt, s)
      else (ok tt, record s { journal = n ∷ s.journal })

  -- The answer says whether the drain halts.
  abbrev pub on_drifted : OnDrift → String → R Bool
  on_drifted halt_drain line = safe_journal (drift line) >> pure true
  on_drifted escalate_task line = reset_window

  unfoldable pub on_line : OnDrift → String → R Bool
  on_line policy line =
      if is_drift line then send (drift line) >> on_drifted policy line else reset_window

  abbrev pub check_window : R String
  check_window s = (
    env.anti_drift s.iterations s.commits_since_drift,
    record s { windows = s.commits_since_drift ∷ s.windows },
  )

  unfoldable pub window_full : OnDrift → R Bool
  window_full policy s =
      (if leb env.every_commits s.commits_since_drift
          then check_window >>= on_line policy
          else pure false)
        s

  unfoldable pub after_commit : OnDrift → Bool → R Bool
  after_commit policy committed =
      if committed then count_commit >> window_full policy else pure false

  -- Behind the anti-drift check.
  unfoldable pub leave_or_go_on : RunOptions → IterationResult → R RunEnd → Bool → R RunEnd
  leave_or_go_on opts res again true = pure stopped
  leave_or_go_on opts res again false = count_iteration >> (λ s.
      or_stop (opts.once || reached opts.max_iterations s.iterations)
        (or_stop (opts.drain && (not (is_some res.claimed) || res.rate_limited)) (nap res >> again))
        s)

  unfoldable pub round : RunOptions → R RunEnd → R RunEnd
  round opts again = do
    res ← iterate
    halted ← after_commit opts.on_drift res.committed
    leave_or_go_on opts res again halted

  -- `while (true)`, which stops when the session is over.
  unfoldable pub loop : RunOptions → ℕ → R RunEnd
  loop opts zero s = (ok cut_off, s)
  loop opts (suc fuel) s =
      or_stop (leb env.max_session (env.now s.iterations - env.start)) (round opts (loop opts fuel))
        s

  abbrev pub preflight : RunOptions → Bool
  preflight opts = opts.require_north_star && is_north_star_silent (readable env.north_star)

  abbrev pub refuse : R RunEnd
  refuse = send silent_north_star >> safe_journal silent_north_star >> pure stopped

  abbrev pub refused_branch : String → Bool
  refused_branch b = b == "main" || not (env.allowed_branch b)

  abbrev pub branched : RunOptions → ℕ → String → R RunEnd
  branched opts fuel branch =
      if refused_branch branch
      then lift (err (thrown "refusing to run"))
      else (if preflight opts then refuse else loop opts fuel)

  -- `run`
  unfoldable pub run : RunOptions → ℕ → R RunEnd
  run opts fuel = lift env.branch >>= branched opts fuel
