-- ===== src/Watchdog/Silence.antt =====
-- When the watchdog finds a run stale: every sign of activity is too old.
use autodev_harness.Common.{ℕ, ◌+◌, ◌*◌, ◌<◌, Option, none, some, ◌≡◌, ◌↔◌, arith}
use autodev_harness.Watchdog.{
  stale, Windows, classify_watch_tick, Node, unreadable, file, dir, Nodes, empty, entry, newer,
  newest_mtime_under, newest_of, Poll, heartbeat_mtime, newest_activity, decision_at,
}

module _ (window now : ℕ) where
  -- A time that is more than the window ago.
  IsOld : ℕ → Type 0
  IsOld m = m + window < now

  mutual
    -- Every file that can be read is old.
    IsOldNode : Node → Type 0
    IsOldNode unreadable = Unit
    IsOldNode (file mtime) = IsOld mtime
    IsOldNode (dir entries) = AreOld entries

    AreOld : Nodes → Type 0
    AreOld empty = Unit
    AreOld (entry n rest) = IsOldNode n × AreOld rest

  newer-IsOld : (a b : ℕ) → IsOld (newer a b) ↔ (IsOld a × IsOld b)
  unfolding newer IsOld
  newer-IsOld a b = ground arith

  zero-IsOld : (a : ℕ) → IsOld a → IsOld 0
  unfolding IsOld
  zero-IsOld a h = omega arith

  mutual
    unfolding newest_mtime_under newest_of IsOldNode AreOld

    newest_mtime_under-IsOld : (n : Node) → IsOld (newest_mtime_under n) ↔ (IsOld 0 × IsOldNode n)
    newest_mtime_under-IsOld unreadable = ground arith
    newest_mtime_under-IsOld (file mtime) = let z = zero-IsOld mtime in ground arith
    newest_mtime_under-IsOld (dir entries) = newest_of-IsOld 0 entries

    newest_of-IsOld : (a : ℕ) (ns : Nodes) → IsOld (newest_of a ns) ↔ (IsOld a × AreOld ns)
    newest_of-IsOld a empty = ground arith
    newest_of-IsOld a (entry n rest) =
        let z = zero-IsOld a in
        let h = newest_of-IsOld (newer a (newest_mtime_under n)) rest in
        let m = newer-IsOld a (newest_mtime_under n) in
        let k = newest_mtime_under-IsOld n in ground arith

  IsOldFile : Option ℕ → Type 0
  IsOldFile none = Unit
  IsOldFile (some mtime) = IsOld mtime

  heartbeat_mtime-IsOld : (h : Option ℕ) → IsOld (heartbeat_mtime h) ↔ (IsOld 0 × IsOldFile h)
  unfolding heartbeat_mtime IsOldFile
  heartbeat_mtime-IsOld none = ground arith
  heartbeat_mtime-IsOld (some mtime) = let z = zero-IsOld mtime in ground arith

  -- Every sign of activity that a poll sees is old.
  pub IsSilent : Poll → Type 0
  IsSilent p = IsOld p.last_activity × IsOldFile p.heartbeat × AreOld p.activity

  newest_activity-IsOld : (p : Poll) → IsOld (newest_activity p) ↔ IsSilent p
  unfolding newest_activity IsSilent
  newest_activity-IsOld p =
      let z = zero-IsOld p.last_activity in
      let a = newer-IsOld p.last_activity (heartbeat_mtime p.heartbeat) in
      let h = heartbeat_mtime-IsOld p.heartbeat in
      let b =
        newer-IsOld (newer p.last_activity (heartbeat_mtime p.heartbeat))
          (newest_of 0 p.activity) in
      let t = newest_of-IsOld 0 p.activity in ground arith

classify_watch_tick-stale :
    (now start newest : ℕ) (w : Windows)
    → (classify_watch_tick now start newest w ≡ stale) ↔ IsOld (w.stale_seconds * 1000) now newest
unfolding classify_watch_tick IsOld
classify_watch_tick-stale now start newest w = ground arith

-- A poll finds a run stale exactly when the last output, the heartbeat and every file under the
-- activity paths, as far as they can be read, are each more than the stale window ago, however long
-- the run has taken.
pub decision_at-stale_iff :
    (poll : ℕ → Poll) (start : ℕ) (w : Windows) (n : ℕ)
    → (decision_at poll start w n ≡ stale) ↔ IsSilent (w.stale_seconds * 1000) (poll n).now (poll n)
unfolding decision_at
decision_at-stale_iff poll start w n =
    let c = classify_watch_tick-stale (poll n).now start (newest_activity (poll n)) w in
    let a = newest_activity-IsOld (w.stale_seconds * 1000) (poll n).now (poll n) in ground arith
