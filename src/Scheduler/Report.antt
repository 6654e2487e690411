-- ===== src/Scheduler/Report.antt =====
-- The dry-run report and the claim agree on which task may be claimed.
use autodev_harness.Common.{
  String, Bool, ◌&&◌, List, [], ◌∷◌, ◌++◌, map, every, elem, is_nil, ◌≡◌, refl, arith,
}
use autodev_harness.Blackboard.{Task, Board, active, escalated, list_tasks}
use autodev_harness.Scheduler.{
  file_sets_disjoint, unlocked, conflicts, missing_deps, report_entry, list_claimable, done_ids,
  locked_tasks, pending_sorted,
}
use autodev_harness.Scheduler.Claims.{may_claim}

conflicts-is_nil :
    (kind : String) (task : Task) (others : List Task)
    → is_nil (conflicts kind task others) ≡ unlocked others task
unfolding conflicts
conflicts-is_nil kind task [] = refl
conflicts-is_nil kind task (other ∷ rest) = ground (arith, conflicts-is_nil kind task rest)

missing_deps-is_nil :
    (ids deps : List String) → is_nil (missing_deps ids deps) ≡ every (λ id. elem id ids) deps
unfolding missing_deps
missing_deps-is_nil ids [] = refl
missing_deps-is_nil ids (d ∷ deps) = ground (arith, missing_deps-is_nil ids deps)

is_nil-append : (xs ys : List String) → is_nil (xs ++ ys) ≡ (is_nil xs && is_nil ys)
is_nil-append [] ys = refl
is_nil-append (x ∷ xs) ys = refl

every-append :
    (p : Task → Bool) (xs ys : List Task) → every p (xs ++ ys) ≡ (every p xs && every p ys)
every-append p [] ys = refl
every-append p (x ∷ xs) ys = ground (arith, every-append p xs ys)

report_entry-id :
    (ids : List String) (actives escalateds : List Task) (task : Task)
    → (report_entry ids actives escalateds task).id ≡ task.id
unfolding report_entry
report_entry-id ids actives escalateds task = refl

report_entry-claimable :
    (ids : List String) (actives escalateds : List Task) (task : Task)
    → (report_entry ids actives escalateds task).claimable
      ≡ may_claim ids (actives ++ escalateds) task
unfolding report_entry
report_entry-claimable ids actives escalateds task = ground (
  arith,
  missing_deps-is_nil ids task.depends_on,
  conflicts-is_nil "active:" task actives,
  conflicts-is_nil "escalated:" task escalateds,
  is_nil-append (conflicts "active:" task actives) (conflicts "escalated:" task escalateds),
  every-append (λ other. file_sets_disjoint task.file_set other.file_set) actives escalateds,
)

-- What the claim would make of a pending task: its id, and whether it passes the two tests.
abbrev pub claim_view : List String → List Task → Task → String × Bool
claim_view ids locked task = (task.id, may_claim ids locked task)

map-report :
    (ids : List String) (actives escalateds ts : List Task)
    → map (λ e. (e.id, e.claimable)) (map (report_entry ids actives escalateds) ts)
      ≡ map (claim_view ids (actives ++ escalateds)) ts
map-report ids actives escalateds [] = refl
map-report ids actives escalateds (t ∷ ts) =
    rw
      (
        report_entry-id ids actives escalateds t,
        report_entry-claimable ids actives escalateds t,
        map-report ids actives escalateds ts,
      )
      refl

-- The report has one entry for each pending task, under the task's id and in the order of the
-- claim's scan, and marks as claimable exactly those that pass the claim's two tests: every
-- dependency done, and no path shared with an active or escalated task.
pub list_claimable-claimable :
    (before : String → String → Bool) (seen : Board)
    → map (λ e. (e.id, e.claimable)) (list_claimable before seen)
      ≡ map
          (claim_view (done_ids before seen) (locked_tasks before seen))
          (pending_sorted before seen)
unfolding list_claimable
list_claimable-claimable before seen =
    map-report (done_ids before seen) (list_tasks before active seen)
      (list_tasks before escalated seen) (pending_sorted before seen)
