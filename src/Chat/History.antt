-- ===== src/Chat/History.antt =====
-- The histories of a manager: its calls, and what the adapter and the timers do, in any order.
use autodev_harness.Common.{ℕ, String, Bool, Option, none, lookup, ◌≡◌, false, []}
use autodev_harness.Chat.{
  Manager, Handle, start_call, start_ready, start_refused, start_failed, late_ready, send_call,
  send_done, attach_stream, detach_stream, cancel, reap_once, close_all,
}

-- A manager as its constructor leaves it.
abbrev pub new_manager : Manager
new_manager = record {
  sessions = [];
  projects_in_flight = [];
  closed = false;
  starting = [];
  refusing = [];
  late = [];
  started = [];
  closings = [];
  ended = [];
}

-- The adapter gives no id that an open session has.
pub data Step : Manager → Manager → Type 0 where
  starts :
      (call project : String) (sink : Option ℕ) (m : Manager)
      → Step m (start_call call project sink m).1
  is_ready :
      (call : String) (handle : Handle) (now : ℕ) (m : Manager)
      → lookup handle.session_id m.sessions ≡ none
      → Step m (start_ready call handle now m)
  is_refused :
      (call : String) (timed_out : Bool) (m : Manager) → Step m (start_refused call timed_out m)
  fails : (call : String) (timed_out : Bool) (m : Manager) → Step m (start_failed call timed_out m)
  is_late : (call : String) (handle : Handle) (m : Manager) → Step m (late_ready call handle m)
  sends : (id : String) (now : ℕ) (m : Manager) → Step m (send_call id now m).1
  is_sent : (handle : Handle) (now : ℕ) (m : Manager) → Step m (send_done handle now m)
  attaches : (id : String) (sink : ℕ) (m : Manager) → Step m (attach_stream id sink m).1
  detaches : (id : String) (sink : ℕ) (m : Manager) → Step m (detach_stream id sink m).1
  cancels : (id : String) (m : Manager) → Step m (cancel id m).1
  reaps : (now idle_timeout : ℕ) (m : Manager) → Step m (reap_once now idle_timeout m)
  closes : (m : Manager) → Step m (close_all m)

pub data Reach (m : Manager) : Manager → Type 0 where
  here : Reach m m
  next : {u v : Manager} → Reach m u → Step u v → Reach m v
