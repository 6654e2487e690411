-- ===== src/Supervisor/Saga.antt =====
-- One rework: what it leaves on each of its paths.
use autodev_harness.Common.{ℕ, suc, false, some, ◌∷◌, ◌≡◌, ◌⊎◌, arith, lookup, put, eq_refl}
use autodev_harness.Util.Fallible.{Error, ok, err}
use autodev_harness.Supervisor.Effects.{
  Night, NightEnv, Action, set_count, requeue, note_seen, write_decision,
}
use autodev_harness.Supervisor.{rework}

module _ (env : NightEnv) (r : ℕ) (a : Action) (w : Night) where
  -- A rework that answers.
  pub rework-seen :
      {u : Unit {0}}
      → (rework env r a w).0 ≡ ok u
      → (rework env r a w).1.seen ≡ put a.id (suc a.count) w.seen
  unfolding rework set_count requeue note_seen write_decision
  rework-seen e = ground arith

  -- The tally goes with the requeue, whatever throws.
  pub rework-tally :
      (((rework env r a w).1.requeued ≡ w.requeued) × ((rework env r a w).1.seen ≡ w.seen))
      ⊎ (((rework env r a w).1.requeued ≡ a.id ∷ w.requeued)
          × ((rework env r a w).1.seen ≡ put a.id (suc a.count) w.seen))
  unfolding rework set_count requeue note_seen write_decision
  rework-tally = ground arith

  -- A task is requeued only after its budget was persisted: a rework requeues the task once and leaves
  -- its persisted counter one above the count that was read, or it requeues nothing and leaves tally
  -- and journal as they were.
  pub rework-counts :
      ((rework env r a w).1.requeued ≡ a.id ∷ w.requeued)
        × (lookup a.id (rework env r a w).1.counts ≡ some (suc a.count))
      ⊎ (((rework env r a w).1.requeued ≡ w.requeued)
          × ((rework env r a w).1.seen ≡ w.seen)
          × ((rework env r a w).1.journal ≡ w.journal))
  unfolding rework set_count requeue note_seen write_decision
  rework-counts = ground (arith, eq_refl a.id)

  -- When the counter can be written and the requeue throws, the rework throws that error, the
  -- counter is back at the count that was read, and nothing was requeued, tallied or journaled.
  pub rework_rolled_back :
      {e : Error}
      → env.set_fault r a.id (suc a.count) ≡ false
      → env.set_fault r a.id a.count ≡ false
      → env.requeue_answer r a.id ≡ err e
      → ((rework env r a w).0 ≡ err e)
        × (lookup a.id (rework env r a w).1.counts ≡ some a.count)
        × ((rework env r a w).1.requeued ≡ w.requeued)
        × ((rework env r a w).1.seen ≡ w.seen)
        × ((rework env r a w).1.journal ≡ w.journal)
  unfolding rework set_count requeue note_seen write_decision
  rework_rolled_back f g h = ground (arith, eq_refl a.id)
