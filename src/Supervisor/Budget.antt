-- ===== src/Supervisor/Budget.antt =====
-- No task is requeued more often than the configured budget, whatever throws.
use mathlib.Core.Path.{subst}
use autodev_harness.Common.{
  occurrences, IsDistinct, in_tail, in_head, apart, ℕ, zero, suc, String, true, false, Option, none,
  some, List, [], ◌∷◌, ◌≡◌, refl, ◌≤◌, ◌<◌, arith, elem, sym, ◌∙◌, eq_iff, ◌==◌, lookup-put,
}
use autodev_harness.Util.Fallible.{ok, leaves, leaves_if, lift, pure, ◌>>=◌, ◌>>◌}
use autodev_harness.Conductor.State.{EscalationType}
use autodev_harness.Supervisor.Effects.{
  M, Night, NightEnv, Action, DecisionKind, park, seen_of, write_decision, effective_count,
}
use autodev_harness.Supervisor.Saga.{rework-tally}
use autodev_harness.Supervisor.Rounds.{
  listed_then, Picked, nothing, skipped, taken, actionable-Picks,
}
use autodev_harness.Supervisor.{
  Ended, finished, out_of_fuel, actionable, rework, rework_all, act, loop, park_rest, park_all,
  park_one, supervise,
}

-- Each requeue is tallied, and is within the budget.
abbrev pub IsTallied : ℕ → Night → Type 0
IsTallied n w =
    (id : String) → (occurrences id w.requeued ≤ seen_of id w) × (occurrences id w.requeued ≤ n)

IsTallied-same :
    (n : ℕ) (v w : Night)
    → v.requeued ≡ w.requeued
    → v.seen ≡ w.seen
    → IsTallied n w
    → IsTallied n v
IsTallied-same n v w e f h id = ground (arith, h id)

fresh_tally : (n : ℕ) (w : Night) → w.requeued ≡ [] → IsTallied n w
fresh_tally n w e id = ground arith

module _ (env : NightEnv) (r : ℕ) (a : Action) (w : Night) where
  rework-IsTallied :
      seen_of a.id w ≤ a.count
      → a.count < env.max_auto_reworks
      → IsTallied env.max_auto_reworks w
      → IsTallied env.max_auto_reworks (rework env r a w).1
  rework-IsTallied l m h id =
      ground (
        arith,
        rework-tally env r a w,
        h id,
        lookup-put a.id id (suc a.count) w.seen,
        eq_iff a.id id,
      )

  -- The tallies of other tasks stay.
  rework_others :
      (id : String) → (a.id == id) ≡ false → seen_of id (rework env r a w).1 ≡ seen_of id w
  rework_others id n =
      ground (arith, rework-tally env r a w, lookup-put a.id id (suc a.count) w.seen)

module _ (env : NightEnv) (r : ℕ) (w : Night) where
  as_read : (a : Action) {n : ℕ} → seen_of a.id w ≤ a.count → n ≡ seen_of a.id w → n ≤ a.count
  as_read a l e = omega arith

  abbrev AreAsRead : List String → Night → Type 0
  AreAsRead ids v = (id : String) → elem id ids ≡ true → seen_of id v ≡ seen_of id w

  rework_all-IsTallied :
      (ids : List String) (acts : List Action) (v : Night)
      → IsDistinct ids
      → Picked env r w ids acts
      → AreAsRead ids v
      → IsTallied env.max_auto_reworks v
      → IsTallied env.max_auto_reworks (rework_all env r acts v).1
  unfolding rework_all
  rework_all-IsTallied [] [] v d nothing s h = h
  rework_all-IsTallied [] (_ ∷ _) v d p s h = elim p [ ]
  rework_all-IsTallied (x ∷ ids) acts v (n, d) (skipped p) s h =
      rework_all-IsTallied ids acts v d p (λ id i. s id (in_tail id x ids i)) h
  rework_all-IsTallied (_ ∷ ids) (_ ∷ acts) v (n, d) (taken a l m p) s h =
      let tallied = rework-IsTallied env r a v (as_read a l (s a.id (in_head a.id ids))) m h in
      leaves (IsTallied env.max_auto_reworks) (rework env r a v) (λ _. rework_all env r acts)
        tallied
        λ u first.
          rework_all-IsTallied ids acts (rework env r a v).1 d p
            (λ id i.
              rework_others env r a v id (apart a.id id ids n i) ∙ s id (in_tail id a.id ids i))
            tallied

module _ (env : NightEnv)
    (distinct : (r : ℕ) (ids : List String) → env.list_escalated r ≡ ok ids → IsDistinct ids) where
  act-IsTallied :
      (r : ℕ) (again : M Ended) (ids : List String) (acts : List Action) (w : Night)
      → IsDistinct ids
      → Picked env r w ids acts
      → ((v : Night)
          → IsTallied env.max_auto_reworks v
          → IsTallied env.max_auto_reworks (again v).1)
      → IsTallied env.max_auto_reworks w
      → IsTallied env.max_auto_reworks (act env r again acts w).1
  act-IsTallied r again ids [] w d p k h = h
  act-IsTallied r again ids (a ∷ acts) w d p k h =
      let tallied = rework_all-IsTallied env r w ids (a ∷ acts) w d p (λ id i. refl) h in
      leaves (IsTallied env.max_auto_reworks) (rework_all env r (a ∷ acts) w) (λ _. again) tallied
        λ u first. k (rework_all env r (a ∷ acts) w).1 tallied

  loop-IsTallied :
      (fuel r : ℕ) (w : Night)
      → IsTallied env.max_auto_reworks w
      → IsTallied env.max_auto_reworks (loop env fuel r w).1
  unfolding loop
  loop-IsTallied zero r w h = h
  loop-IsTallied (suc fuel) r w h =
      leaves (IsTallied env.max_auto_reworks) (lift (env.drain r) w)
        (λ _. lift (env.list_escalated r) >>= listed_then env fuel r) h
        λ _ drained.
          leaves (IsTallied env.max_auto_reworks) (lift (env.list_escalated r) w)
            (listed_then env fuel r) h
            λ ids l.
              let (same, due) = actionable-Picks env r w ids in
              let now = subst (IsTallied env.max_auto_reworks) (sym same) h in
              leaves (IsTallied env.max_auto_reworks) (actionable env r ids w)
                (act env r (loop env fuel (suc r))) now
                λ acts found.
                  subst
                    (λ v.
                      IsTallied env.max_auto_reworks (act env r (loop env fuel (suc r)) acts v).1)
                    (sym same)
                    (act-IsTallied r (loop env fuel (suc r)) ids acts w (distinct r ids l)
                      (due acts found) (loop-IsTallied fuel (suc r)) h)

  -- The parks are journaled only.
  write_decision-IsTallied :
      (id : String) (t : EscalationType) (d : DecisionKind) (n : ℕ) (w : Night)
      → IsTallied env.max_auto_reworks w
      → IsTallied env.max_auto_reworks (write_decision env env.last_round id t d n w).1
  unfolding write_decision
  write_decision-IsTallied id t d n w h =
      IsTallied-same env.max_auto_reworks (write_decision env env.last_round id t d n w).1 w
        (ground arith) (ground arith) h

  park_one-IsTallied :
      (id : String) (t : Option EscalationType) (next : List String → M (Unit {0}))
      (parked : List String) (w : Night)
      → ((ps : List String) (v : Night)
          → IsTallied env.max_auto_reworks v
          → IsTallied env.max_auto_reworks (next ps v).1)
      → IsTallied env.max_auto_reworks w
      → IsTallied env.max_auto_reworks (park_one env id t next parked w).1
  park_one-IsTallied id none next parked w k h = k parked w h
  park_one-IsTallied id (some t) next parked w k h =
      leaves (IsTallied env.max_auto_reworks) (effective_count env env.last_round id w)
        (λ count. write_decision env env.last_round id t park count >> next (id ∷ parked)) h
        λ count _.
          let written = write_decision-IsTallied id t park count w h in
          leaves (IsTallied env.max_auto_reworks)
            (write_decision env env.last_round id t park count w) (λ _. next (id ∷ parked)) written
            λ u _. k (id ∷ parked) (write_decision env env.last_round id t park count w).1 written

  park_all-IsTallied :
      (ids parked : List String) (w : Night)
      → IsTallied env.max_auto_reworks w
      → IsTallied env.max_auto_reworks (park_all env ids parked w).1
  unfolding park_all
  park_all-IsTallied [] parked w h = h
  park_all-IsTallied (id ∷ ids) parked w h =
      leaves_if (IsTallied env.max_auto_reworks) (elem id parked) (park_all env ids parked)
        (lift (env.read_type env.last_round id) >>= λ t.
          park_one env id t (park_all env ids) parked)
        w (park_all-IsTallied ids parked w h)
        (leaves (IsTallied env.max_auto_reworks) (lift (env.read_type env.last_round id) w)
          (λ t. park_one env id t (park_all env ids) parked) h
          λ t _. park_one-IsTallied id t (park_all env ids) parked w (park_all-IsTallied ids) h)

  park_rest-IsTallied :
      (ended : Ended) (w : Night)
      → IsTallied env.max_auto_reworks w
      → IsTallied env.max_auto_reworks (park_rest env ended w).1
  park_rest-IsTallied out_of_fuel w h = h
  park_rest-IsTallied finished w h =
      leaves (IsTallied env.max_auto_reworks) (lift (env.list_escalated env.last_round) w)
        (λ ids. park_all env ids [] >> pure finished) h
        λ ids _.
          let parked = park_all-IsTallied ids [] w h in
          leaves (IsTallied env.max_auto_reworks) (park_all env ids [] w) (λ _. pure finished)
            parked λ _ _. parked

  -- If no listing names a task twice, then a night that starts with nothing requeued requeues no
  -- task more than `maxAutoReworks` times, however long it runs, whatever the persisted counters
  -- read, and whatever throws.
  pub supervise-occurrences :
      (fuel : ℕ) (w : Night) (id : String)
      → w.requeued ≡ []
      → occurrences id (supervise env fuel w).1.requeued ≤ env.max_auto_reworks
  unfolding supervise
  supervise-occurrences fuel w id e =
      let fresh = fresh_tally env.max_auto_reworks w e in
      let ended = loop-IsTallied fuel 0 w fresh in
      (leaves_if (IsTallied env.max_auto_reworks) env.enabled (loop env fuel 0 >>= park_rest env)
        (pure finished) w
        (leaves (IsTallied env.max_auto_reworks) (loop env fuel 0 w) (park_rest env) ended
          λ end _. park_rest-IsTallied end (loop env fuel 0 w).1 ended)
        fresh id).1
