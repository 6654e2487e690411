-- ===== src/Tests/Nights.antt =====
-- A night with two escalations: one that reworks do not fix, and one that waits for its operator.
use autodev_harness.Common.{
  ◌⊎◌, Option, if◌then◌else◌, ◌==◌, ℕ, ◌≤◌, String, true, false, none, some, List, [], ◌∷◌, ◌≡◌,
  ◌≢◌, refl, All, arith, occurrences, IsDistinct, elem, lookup,
}
use autodev_harness.Util.Fallible.{Result, thrown, ok, err}
use autodev_harness.Conductor.State.{EscalationType, disagreement, constitution}
use autodev_harness.Supervisor.Effects.{
  Night, NightEnv, Action, set_count, requeue, note_seen, write_decision,
}
use mathlib.Core.Path.{subst}
use autodev_harness.Supervisor.Rounds.{ok_injective}
use autodev_harness.Supervisor.Ends.{supervise_ends}
use autodev_harness.Supervisor.Saga.{rework_rolled_back, rework-counts}
use autodev_harness.Supervisor.Budget.{supervise-occurrences}
use autodev_harness.Supervisor.{
  finished, out_of_fuel, supervise, rework, rework_all, loop, park_all, actionable,
}

abbrev tasks : List String
tasks = "t1" ∷ "t2" ∷ []

abbrev type_of : String → Result (Option EscalationType)
type_of id = if id == "t1" then ok (some disagreement) else ok (some constitution)

abbrev persisted : Option ℕ → ℕ
persisted none = 0
persisted (some n) = n

abbrev env : NightEnv
env = record {
  enabled = true;
  max_auto_reworks = 2;
  last_round = 9;
  drain = λ r. ok tt;
  list_escalated = λ r. ok tasks;
  read_type = λ r id. type_of id;
  get_rework_count = λ r id c. ok (persisted c);
  set_fault = λ r id n. false;
  requeue_answer = λ r id. ok tt;
  journal_fault = λ r id. false;
}

abbrev start : Night
start = record { counts = []; seen = []; requeued = []; journal = [] }

night :
    ((supervise env 5 start).0 ≡ ok finished)
    × ((supervise env 5 start).1.requeued ≡ "t1" ∷ "t1" ∷ [])
unfolding supervise loop actionable rework_all rework set_count requeue note_seen write_decision
    park_all
night = (refl, refl)

short_night : (supervise env 2 start).0 ≡ ok out_of_fuel
unfolding supervise loop actionable rework_all rework set_count requeue note_seen write_decision
short_night = refl

listed :
    (r : ℕ) (ids : List String)
    → env.list_escalated r ≡ ok ids
    → All (λ id. elem id tasks ≡ true) ids
listed r ids e = subst (All (λ id. elem id tasks ≡ true)) (ok_injective e) (refl, (refl, tt))

distinct : (r : ℕ) (ids : List String) → env.list_escalated r ≡ ok ids → IsDistinct ids
distinct r ids e = subst IsDistinct (ok_injective e) (refl, (refl, tt))

-- Two tasks with a budget of two reworks each: five rounds are enough.
supervise_ends_example : (supervise env 5 start).0 ≢ ok out_of_fuel
supervise_ends_example = supervise_ends env tasks listed 5 start (omega arith)

-- The task is requeued twice at most.
supervise-occurrences_example : occurrences "t1" (supervise env 5 start).1.requeued ≤ 2
supervise-occurrences_example = supervise-occurrences env distinct 5 start "t1" refl

abbrev failing : NightEnv
failing = record env { requeue_answer = λ r id. err (thrown "rename") }

abbrev first : Action
first = record { id = "t1"; type = disagreement; count = 0 }

rework-counts_example :
    (((rework failing 0 first start).1.requeued ≡ "t1" ∷ [])
      × (lookup "t1" (rework failing 0 first start).1.counts ≡ some 1))
    ⊎ (((rework failing 0 first start).1.requeued ≡ [])
        × ((rework failing 0 first start).1.seen ≡ [])
        × ((rework failing 0 first start).1.journal ≡ []))
rework-counts_example = rework-counts failing 0 first start

-- The requeue fails: the counter is back at 0.
rework_rolled_back_example :
    ((rework failing 0 first start).0 ≡ err (thrown "rename"))
    × (lookup "t1" (rework failing 0 first start).1.counts ≡ some 0)
    × ((rework failing 0 first start).1.requeued ≡ [])
    × ((rework failing 0 first start).1.seen ≡ [])
    × ((rework failing 0 first start).1.journal ≡ [])
rework_rolled_back_example = rework_rolled_back failing 0 first start refl refl refl
