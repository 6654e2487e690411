-- ===== src/Watchdog.antt =====
-- The watchdog: the decision of a poll, the newest activity, and the loop of `runWatched` in
-- src/watchdog/watchdog.ts.
use autodev_harness.Common.{
  ℕ, zero, suc, ◌+◌, ◌*◌, ◌-◌, Bool, ltb, List, [], ◌∷◌, Option, none, some, if◌then◌else◌,
}
pub mod Laws
pub mod Silence

-- `{ kill: false }`, or `{ kill: true; reason }`.
pub data WatchTickDecision : Type 0 where
  keep : WatchTickDecision
  stale : WatchTickDecision
  timeout : WatchTickDecision

-- The windows of a run, in whole seconds.
pub record Windows : Type 0 where
  pub stale_seconds : ℕ
  pub timeout_seconds : ℕ

-- A difference of clock readings that is negative in the code is 0 here, which no window is below.
unfoldable pub classify_watch_tick : ℕ → ℕ → ℕ → Windows → WatchTickDecision
classify_watch_tick now start newest_activity w =
    if ltb (w.stale_seconds * 1000) (now - newest_activity)
    then stale
    else if ltb (w.timeout_seconds * 1000) (now - start)
    then timeout
    else keep

-- What a path holds at a poll: nothing that `stat` or `readdir` can read, a file with its `mtimeMs`, or a
-- directory with its entries.
mutual
  pub data Node : Type 0 where
    unreadable : Node
    file : ℕ → Node
    dir : Nodes → Node

  pub data Nodes : Type 0 where
    empty : Nodes
    entry : Node → Nodes → Nodes

unfoldable pub newer : ℕ → ℕ → ℕ
newer newest m = if ltb newest m then m else newest

unfoldable mutual
  pub newest_mtime_under : Node → ℕ
  newest_mtime_under unreadable = 0
  newest_mtime_under (file mtime) = mtime
  newest_mtime_under (dir entries) = newest_of 0 entries

  pub newest_of : ℕ → Nodes → ℕ
  newest_of newest empty = newest
  newest_of newest (entry n rest) = newest_of (newer newest (newest_mtime_under n)) rest

-- What a poll sees: whether the child has exited, when it last wrote, the heartbeat's `mtimeMs`, the
-- activity paths, and the clock.
pub record Poll : Type 0 where
  pub exited : Bool
  pub last_activity : ℕ
  pub heartbeat : Option ℕ
  pub activity : Nodes
  pub now : ℕ

unfoldable pub heartbeat_mtime : Option ℕ → ℕ
heartbeat_mtime none = 0
heartbeat_mtime (some mtime) = mtime

unfoldable pub newest_activity : Poll → ℕ
newest_activity p =
    newer (newer p.last_activity (heartbeat_mtime p.heartbeat)) (newest_of 0 p.activity)

-- How the loop ends: the child exits before poll `n`, or it is killed at poll `n`.
pub data WatchEnd : Type 0 where
  exited_at : ℕ → WatchEnd
  killed_at : ℕ → WatchTickDecision → WatchEnd
  cut_off : WatchEnd

unfoldable pub on_tick : ℕ → WatchEnd → WatchTickDecision → WatchEnd
on_tick n rest keep = rest
on_tick n rest stale = killed_at n stale
on_tick n rest timeout = killed_at n timeout

module _ (poll : ℕ → Poll) (start : ℕ) (w : Windows) where
  unfoldable pub decision_at : ℕ → WatchTickDecision
  decision_at n = classify_watch_tick (poll n).now start (newest_activity (poll n)) w

  unfoldable pub watch : ℕ → ℕ → WatchEnd
  watch zero n = cut_off
  watch (suc fuel) n =
      let rest = watch fuel (suc n) in
      if (poll n).exited then exited_at n else on_tick n rest (decision_at n)
