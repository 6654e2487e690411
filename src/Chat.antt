-- ===== src/Chat.antt =====
-- src/orchestrator/chat-session-manager.ts: the chat sessions of a server.
--
-- Each function is what the code does between two awaits, so a history of the manager is a sequence
-- of them. A call of `start` is known by a key of its own while it waits.
use autodev_harness.Common.{
  ℕ, ◌-◌, String, Bool, true, false, not, ◌&&◌, Option, none, some, List, [], ◌∷◌, lookup, elem,
  filter, ltb, nat_eq, ◌==◌, if◌then◌else◌,
}
use autodev_harness.Util.Fallible.{Result, ok, err, thrown, Stateful}
pub mod Totals
pub mod History
pub mod Slots
pub mod Laws

-- A handle names its session; `process` tells the adapter's processes apart.
pub record Handle : Type 0 where
  pub session_id : String
  pub process : ℕ

-- `ManagedSession`
pub record Session : Type 0 where
  pub project : String
  pub handle : Handle
  pub last_activity : ℕ
  pub sink : Option ℕ
  pub turn_in_flight : Bool

-- A call of `start` that waits for the adapter.
pub record Start : Type 0 where
  pub project : String
  pub sink : Option ℕ

-- One whose handle is being closed since the manager shuts down.
pub record Refused : Type 0 where
  pub project : String
  pub process : ℕ

-- The fields of the class, and: the calls that wait; those that timed out; the processes that the
-- adapter has started, and those on which its `close` was called; the sinks that were ended.
pub record Manager : Type 0 where
  pub sessions : List (String × Session)
  pub projects_in_flight : List String
  pub closed : Bool
  pub starting : List (String × Start)
  pub refusing : List (String × Refused)
  pub late : List (String × Start)
  pub started : List ℕ
  pub closings : List ℕ
  pub ended : List ℕ

module _ {V : Type 0} where
  -- `Map.delete`, `Map.set`, and a change of the value of a key.
  abbrev pub delete_key : String → List (String × V) → List (String × V)
  delete_key k [] = []
  delete_key k ((j, v) ∷ m) = if j == k then m else (j, v) ∷ delete_key k m

  abbrev pub set_key : String → V → List (String × V) → List (String × V)
  set_key k v [] = (k, v) ∷ []
  set_key k v ((j, w) ∷ m) = if j == k then (k, v) ∷ m else (j, w) ∷ set_key k v m

  abbrev pub change_key : String → (V → V) → List (String × V) → List (String × V)
  change_key k f [] = []
  change_key k f ((j, v) ∷ m) = if j == k then (j, f v) ∷ m else (j, v) ∷ change_key k f m

abbrev pub delete_text : String → List String → List String
delete_text p xs = filter (λ x. not (x == p)) xs

-- `s.sseRes?.end()`
abbrev pub end_sink : Option ℕ → List ℕ → List ℕ
end_sink none ended = ended
end_sink (some sink) ended = sink ∷ ended

-- `hasOpenSession`
abbrev pub has_open_session : Manager → String → Bool
has_open_session m project = elem project m.projects_in_flight

-- `start`, up to its await.
unfoldable pub start_call : String → String → Option ℕ → Stateful Manager (Unit {0})
start_call call project sink m =
    if has_open_session m project
    then (err (thrown "a chat session is already open for this project"), m)
    else (
      ok tt,
      record m {
        projects_in_flight = project ∷ m.projects_in_flight;
        starting = (call, record { project = project; sink = sink }) ∷ m.starting;
      },
    )

abbrev pub opened : Start → Handle → ℕ → Session
opened waiting handle now = record {
  project = waiting.project;
  handle = handle;
  last_activity = now;
  sink = waiting.sink;
  turn_in_flight = false;
}

-- The adapter has started the session, and the race is won.
unfoldable pub start_ready : String → Handle → ℕ → Manager → Manager
start_ready call handle now m = elim (lookup call m.starting) [
  | none ↦ m
  | some waiting ↦
      if m.closed
      then record m {
        starting = delete_key call m.starting;
        refusing =
            (call, record { project = waiting.project; process = handle.process }) ∷ m.refusing;
        started = handle.process ∷ m.started;
        closings = handle.process ∷ m.closings;
      }
      else record m {
        starting = delete_key call m.starting;
        sessions = set_key handle.session_id (opened waiting handle now) m.sessions;
        started = handle.process ∷ m.started;
      }
]

-- The `catch` of a call that was refused since the manager shuts down: its timer may have fired
-- while the handle was closed, and then the handle is closed again.
unfoldable pub start_refused : String → Bool → Manager → Manager
start_refused call timed_out m = elim (lookup call m.refusing) [
  | none ↦ m
  | some waiting ↦ record m {
    refusing = delete_key call m.refusing;
    projects_in_flight = delete_text waiting.project m.projects_in_flight;
    closings = if timed_out then waiting.process ∷ m.closings else m.closings;
  }
]

-- The `catch` of a call whose adapter threw, or whose timer fired.
unfoldable pub start_failed : String → Bool → Manager → Manager
start_failed call timed_out m = elim (lookup call m.starting) [
  | none ↦ m
  | some waiting ↦ record m {
    starting = delete_key call m.starting;
    projects_in_flight = delete_text waiting.project m.projects_in_flight;
    late = if timed_out then (call, waiting) ∷ m.late else m.late;
  }
]

-- The adapter starts the session of a call that timed out.
unfoldable pub late_ready : String → Handle → Manager → Manager
late_ready call handle m = elim (lookup call m.late) [
  | none ↦ m
  | some waiting ↦ record m {
    late = delete_key call m.late;
    started = handle.process ∷ m.started;
    closings = handle.process ∷ m.closings;
  }
]

-- `send`, up to its await: it answers the handle that the turn is sent to.
unfoldable pub send_call : String → ℕ → Stateful Manager Handle
send_call id now m = elim (lookup id m.sessions) [
  | none ↦ (err (thrown "chat session not found"), m)
  | some s ↦
      if s.turn_in_flight
      then (err (thrown "a turn is already in flight for this chat session"), m)
      else (
        ok s.handle,
        record m {
          sessions =
              change_key id (λ t. record t { last_activity = now; turn_in_flight = true })
                m.sessions;
        },
      )
]

-- The `finally` of `send`, on the session's own object, which may have left the map.
abbrev pub turn_ended : Handle → ℕ → Session → Session
turn_ended handle now s =
    if nat_eq s.handle.process handle.process
    then record s { turn_in_flight = false; last_activity = now }
    else s

unfoldable pub send_done : Handle → ℕ → Manager → Manager
send_done handle now m = record m {
  sessions = change_key handle.session_id (turn_ended handle now) m.sessions;
}

-- `attachStream`
unfoldable pub attach_stream : String → ℕ → Stateful Manager Bool
attach_stream id sink m = elim (lookup id m.sessions) [
  | none ↦ (ok false, m)
  | some s ↦ (
    ok true,
    record m {
      sessions = change_key id (λ t. record t { sink = some sink }) m.sessions;
      ended = end_sink s.sink m.ended;
    },
  )
]

abbrev is_sink : ℕ → Option ℕ → Bool
is_sink n none = false
is_sink n (some k) = nat_eq k n

-- `detachStream`
unfoldable pub detach_stream : String → ℕ → Stateful Manager Bool
detach_stream id sink m = elim (lookup id m.sessions) [
  | none ↦ (ok false, m)
  | some s ↦
      if is_sink sink s.sink
      then (
        ok true,
        record m { sessions = change_key id (λ t. record t { sink = none }) m.sessions },
      )
      else (ok false, m)
]

-- `release`
unfoldable pub release : String → Session → Manager → Manager
release id s m = record m {
  sessions = delete_key id m.sessions;
  projects_in_flight = delete_text s.project m.projects_in_flight;
  ended = end_sink s.sink m.ended;
}

-- `forceClose`
unfoldable pub force_close : String → Manager → Manager
unfolding release
force_close id m = elim (lookup id m.sessions) [
  | none ↦ m
  | some s ↦ record (release id s m) { closings = s.handle.process ∷ m.closings }
]

-- `cancel`
unfoldable pub cancel : String → Stateful Manager Bool
unfolding release
cancel id m = elim (lookup id m.sessions) [
  | none ↦ (ok false, m)
  | some s ↦ (ok true, record (release id s m) { closings = s.handle.process ∷ m.closings })
]

abbrev pub is_idle : ℕ → Session → Bool
is_idle cutoff s = not s.turn_in_flight && ltb s.last_activity cutoff

-- `reapOnce`, over the sessions from some on.
unfoldable pub reap_from : ℕ → List (String × Session) → Manager → Manager
unfolding force_close
reap_from cutoff [] m = m
reap_from cutoff ((id, s) ∷ rest) m =
    reap_from cutoff rest (if is_idle cutoff s then force_close id m else m)

unfoldable pub reap_once : ℕ → ℕ → Manager → Manager
unfolding reap_from
reap_once now idle_timeout m = reap_from (now - idle_timeout) m.sessions m

unfoldable pub close_each : List (String × Session) → Manager → Manager
unfolding force_close
close_each [] m = m
close_each ((id, s) ∷ rest) m = close_each rest (force_close id m)

-- `closeAll`
unfoldable pub close_all : Manager → Manager
unfolding close_each
close_all m = close_each m.sessions (record m { closed = true })
