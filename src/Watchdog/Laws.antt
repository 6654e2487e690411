-- ===== src/Watchdog/Laws.antt =====
-- What the watchdog promises: a run that is overdue ends, at the first poll that gives a reason.
use autodev_harness.Common.{
  ℕ, zero, suc, ◌+◌, ◌*◌, ◌-◌, ◌<◌, ◌≤◌, Bool, true, false, ◌≡◌, ◌≢◌, refl, arith, ◌⊎◌, inl, inr,
  le-cases, if◌then◌else◌,
}
use autodev_harness.Watchdog.{
  WatchTickDecision, keep, stale, timeout, Windows, classify_watch_tick, Poll, WatchEnd, exited_at,
  killed_at, decision_at, on_tick, watch, newest_activity,
}

classify_watch_tick-timeout :
    (now start newest : ℕ) (w : Windows)
    → w.timeout_seconds * 1000 < now - start
    → classify_watch_tick now start newest w ≢ keep
unfolding classify_watch_tick
classify_watch_tick-timeout now start newest w h = ground arith

-- A poll ends the run or goes on with what follows.
on_tick-cases :
    (n : ℕ) (b : Bool) (d : WatchTickDecision) (rest : WatchEnd)
    → (((b ≡ true) × ((if b then exited_at n else on_tick n rest d) ≡ exited_at n))
        ⊎ ((b ≡ false)
            × (d ≢ keep)
            × ((if b then exited_at n else on_tick n rest d) ≡ killed_at n d)))
      ⊎ (((b ≡ false) × (d ≡ keep)) × ((if b then exited_at n else on_tick n rest d) ≡ rest))
unfolding on_tick
on_tick-cases n true d rest = inl (inl (refl, refl))
on_tick-cases n false keep rest = inr ((refl, refl), refl)
on_tick-cases n false stale rest = inl (inr (refl, (λ e. cc), refl))
on_tick-cases n false timeout rest = inl (inr (refl, (λ e. cc), refl))

module _ (poll : ℕ → Poll) (start : ℕ) (w : Windows) where
  -- At poll `n` the child runs and there is no reason to kill it.
  IsKept : ℕ → Type 0
  IsKept n = ((poll n).exited ≡ false) × (decision_at poll start w n ≡ keep)

  -- The end `e` at poll `k`: the child has exited, or it runs and there is a reason.
  EndsAt : ℕ → WatchEnd → Type 0
  EndsAt k e =
      (((poll k).exited ≡ true) × (e ≡ exited_at k))
      ⊎ (((poll k).exited ≡ false)
          × (decision_at poll start w k ≢ keep)
          × (e ≡ killed_at k (decision_at poll start w k)))

  watch-cases :
      (fuel n : ℕ)
      → EndsAt n (watch poll start w (suc fuel) n)
        ⊎ (IsKept n × (watch poll start w (suc fuel) n ≡ watch poll start w fuel (suc n)))
  unfolding watch EndsAt IsKept
  watch-cases fuel n =
      on_tick-cases n (poll n).exited (decision_at poll start w n) (watch poll start w fuel (suc n))

  overdue : (n : ℕ) → w.timeout_seconds * 1000 < (poll n).now - start → IsKept n → ⊥
  unfolding IsKept decision_at
  overdue n h kept =
      classify_watch_tick-timeout (poll n).now start (newest_activity (poll n)) w h kept.1

  -- The first poll that gives a reason to end, at most the poll `last`, is the end.
  pub Outcome : ℕ → WatchEnd → Type 0
  Outcome last e = (k : ℕ) × (k ≤ last) × ((i : ℕ) → i < k → IsKept i) × EndsAt k e

  ended :
      (last k : ℕ) (e : WatchEnd)
      → k ≤ last
      → ((i : ℕ) → i < k → IsKept i)
      → EndsAt k e
      → Outcome last e
  unfolding Outcome
  ended last k e le before at = (k, le, before, at)

  last_is : (last n : ℕ) → last ≡ n + 0 → last ≡ n
  last_is last n h = omega arith

  extend : (n : ℕ) → ((i : ℕ) → i < n → IsKept i) → IsKept n → (i : ℕ) → i < suc n → IsKept i
  extend n before here i l = elim (le-cases i n (omega arith)) [
    | inl e ↦ rw e here
    | inr less ↦ before i less
  ]

  ends_by :
      (last gap fuel n : ℕ)
      → w.timeout_seconds * 1000 < (poll last).now - start
      → last ≡ n + gap
      → gap < fuel
      → ((i : ℕ) → i < n → IsKept i)
      → Outcome last (watch poll start w fuel n)
  ends_by last gap zero n late at l before = absurd (omega arith)
  ends_by last zero (suc fuel) n late at l before = elim (watch-cases fuel n) [
    | inl e ↦ ended last n _ (omega arith) before e
    | inr (kept, e) ↦ absurd (overdue last late (rw (last_is last n at) kept))
  ]
  ends_by last (suc gap) (suc fuel) n late at l before = elim (watch-cases fuel n) [
    | inl e ↦ ended last n _ (omega arith) before e
    | inr (kept, e) ↦
        rw e (ends_by last gap fuel (suc n) late (omega arith) (omega arith) (extend n before kept))
  ]

  -- If the clock of poll `last` is past the timeout, a watch on more fuel than `last` is never cut off:
  -- it ends at the first poll at which the child has exited or there is a reason to kill it, which is at
  -- most `last`, and with the exit, or with that reason.
  pub watch_ends :
      (fuel last : ℕ)
      → w.timeout_seconds * 1000 < (poll last).now - start
      → last < fuel
      → Outcome last (watch poll start w fuel 0)
  watch_ends fuel last late l =
      ends_by last last fuel 0 late (omega arith) l λ i h. absurd (omega arith)
