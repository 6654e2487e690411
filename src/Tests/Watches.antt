-- ===== src/Tests/Watches.antt =====
-- A child that writes until the time 4000, with a heartbeat at 1000 and one readable file.
use autodev_harness.Common.{ℕ, ◌+◌, ◌*◌, false, some, ◌≡◌, ◌↔◌, refl, arith}
use autodev_harness.Watchdog.{
  Poll, Windows, Nodes, empty, entry, unreadable, file, dir, stale, timeout, killed_at, watch,
  decision_at, on_tick, classify_watch_tick, newest_activity, newest_of, newer, heartbeat_mtime,
}
use autodev_harness.Watchdog.Laws.{Outcome, watch_ends}
use autodev_harness.Watchdog.Silence.{IsSilent, decision_at-stale_iff}

abbrev under_paths : Nodes
under_paths = entry unreadable (entry (dir (entry (file 2000) empty)) empty)

-- A poll every second, from the time 5000.
abbrev poll : ℕ → Poll
poll n = record {
  exited = false;
  last_activity = 4000;
  heartbeat = some 1000;
  activity = under_paths;
  now = 5000 + n * 1000;
}

abbrev windows : Windows
windows = record { stale_seconds = 3; timeout_seconds = 60 }

abbrev short : Windows
short = record { stale_seconds = 3; timeout_seconds = 4 }

killed_as_stale : watch poll 2000 windows 9 0 ≡ killed_at 3 stale
unfolding watch on_tick decision_at classify_watch_tick newest_activity newest_of newer
    heartbeat_mtime
killed_as_stale = refl

killed_as_overdue : watch poll 2000 short 9 0 ≡ killed_at 2 timeout
unfolding watch on_tick decision_at classify_watch_tick newest_activity newest_of newer
    heartbeat_mtime
killed_as_overdue = refl

watch_ends_example : Outcome poll 2000 windows 60 (watch poll 2000 windows 61 0)
watch_ends_example = watch_ends poll 2000 windows 61 60 (omega arith) (omega arith)

decision_at-stale_iff_example :
    (decision_at poll 2000 windows 3 ≡ stale) ↔ IsSilent 3000 8000 (poll 3)
decision_at-stale_iff_example = decision_at-stale_iff poll 2000 windows 3
