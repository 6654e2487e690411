-- ===== src/Supervisor/Effects.antt =====
-- What the supervisor reads and changes.
use autodev_harness.Common.{
  ℕ, String, Bool, Option, none, some, List, [], ◌∷◌, ◌++◌, max, if◌then◌else◌, lookup, put,
}
use autodev_harness.Util.Fallible.{thrown, Result, ok, err, Stateful}
use autodev_harness.Conductor.State.{EscalationType}

pub data DecisionKind : Type 0 where
  auto_rework park : DecisionKind

-- `DecisionJournalEntry`, without its time and its texts.
pub record DecisionJournalEntry : Type 0 where
  pub task_id : String
  pub escalation_type : EscalationType
  pub decision : DecisionKind
  pub rework_count : ℕ

-- An element of `actionable`.
pub record Action : Type 0 where
  pub id : String
  pub type : EscalationType
  pub count : ℕ

-- The persisted counters, the tally `seen` of this run, and what was done.
pub record Night : Type 0 where
  pub counts : List (String × ℕ)
  pub seen : List (String × ℕ)
  pub requeued : List String
  pub journal : List DecisionJournalEntry

-- What the supervisor calls, round by round. The counter that is read may be any function of what
-- was persisted; the last listing, behind the loop, is that of `last_round`.
pub record NightEnv : Type 0 where
  pub enabled : Bool
  pub max_auto_reworks : ℕ
  pub last_round : ℕ
  pub drain : ℕ → Result (Unit {0})
  pub list_escalated : ℕ → Result (List String)
  pub read_type : ℕ → String → Result (Option EscalationType)
  pub get_rework_count : ℕ → String → Option ℕ → Result ℕ
  pub set_fault : ℕ → String → ℕ → Bool
  pub requeue_answer : ℕ → String → Result (Unit {0})
  pub journal_fault : ℕ → String → Bool

abbrev pub M : Type 0 → Type 0
M = Stateful Night

-- `seen.get(id) ?? 0`
abbrev pub seen_of : String → Night → ℕ
seen_of id w = elim (lookup id w.seen) [ none ↦ 0 | some n ↦ n ]

abbrev pub with_max : ℕ → Result ℕ → Result ℕ
with_max n (ok c) = ok (max c n)
with_max n (err e) = err e

-- `seen.set(id, next)`
unfoldable pub note_seen : String → ℕ → M (Unit {0})
note_seen id n w = (ok tt, record w { seen = put id n w.seen })

module _ (env : NightEnv) where
  -- `effectiveCount`
  abbrev pub effective_count : ℕ → String → M ℕ
  effective_count r id w =
      (with_max (seen_of id w) (env.get_rework_count r id (lookup id w.counts)), w)

  unfoldable pub set_count : ℕ → String → ℕ → M (Unit {0})
  set_count r id n w =
      if env.set_fault r id n
      then (err (thrown "write"), w)
      else (ok tt, record w { counts = put id n w.counts })

  -- A requeue that throws rolls the counter back, best effort, and throws on.
  abbrev pub requeued_or_rolled_back : ℕ → Action → Result (Unit {0}) → M (Unit {0})
  requeued_or_rolled_back r a (ok _) w = (ok tt, record w { requeued = a.id ∷ w.requeued })
  requeued_or_rolled_back r a (err e) w = (err e, (set_count r a.id a.count w).1)

  unfoldable pub requeue : ℕ → Action → M (Unit {0})
  requeue r a = requeued_or_rolled_back r a (env.requeue_answer r a.id)

  unfoldable pub write_decision : ℕ → String → EscalationType → DecisionKind → ℕ → M (Unit {0})
  write_decision r id t d n w = if env.journal_fault r id then (err (thrown "append"), w) else (
    ok tt,
    record w {
      journal =
          w.journal
          ++ record { task_id = id; escalation_type = t; decision = d; rework_count = n } ∷ [];
    },
  )
