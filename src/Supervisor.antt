-- ===== src/Supervisor.antt =====
-- src/autonomy/overnight-supervisor.ts: drains of the queue and automatic reworks, on a budget.
--
-- The loop has no bound of its own in the code: `supervise` runs it on fuel, and `out_of_fuel` is
-- the answer of a run that was cut off.
pub mod Effects
pub mod Saga
pub mod Rounds
pub mod Room
pub mod Ends
pub mod Budget
use autodev_harness.Common.{
  ℕ, zero, suc, String, Bool, true, false, Option, none, some, List, [], ◌∷◌, is_nil, elem, leb,
  if◌then◌else◌,
}
use autodev_harness.Util.Fallible.{Result, ok, err, pure, lift, ◌>>=◌, ◌>>◌}
use autodev_harness.Conductor.State.{EscalationType, disagreement, uncertain, poison}
use autodev_harness.Supervisor.Effects.{
  Night, NightEnv, M, Action, auto_rework, park, effective_count, set_count, requeue, note_seen,
  write_decision,
}

-- `isRetryable`
abbrev pub is_retryable : EscalationType → Bool
is_retryable disagreement = true
is_retryable uncertain = true
is_retryable poison = true
is_retryable _ = false

pub data Ended : Type 0 where
  finished out_of_fuel : Ended

-- `actionable.push`
abbrev pub picked : String → EscalationType → M (List Action) → ℕ → M (List Action)
picked id t keep count = do later ← keep; pure (record { id = id; type = t; count = count } ∷ later)

module _ (env : NightEnv) where
  -- One escalation of the list: `keep` is the rest of the loop.
  abbrev pub consider : ℕ → String → Option EscalationType → M (List Action) → M (List Action)
  consider r id none keep = keep
  consider r id (some t) keep =
      if is_retryable t
      then (do
        count ← effective_count env r id
        if leb env.max_auto_reworks count then keep else picked id t keep count)
      else keep

  -- The loop that fills `actionable`.
  unfoldable pub actionable : ℕ → List String → M (List Action)
  actionable r [] = pure []
  actionable r (id ∷ ids) = do
    type ← lift (env.read_type r id)
    consider r id type (actionable r ids)

  -- One rework: the budget, the requeue, the tally, the journal.
  unfoldable pub rework : ℕ → Action → M (Unit {0})
  rework r a =
      set_count env r a.id (suc a.count)
      >> requeue env r a
      >> note_seen a.id (suc a.count)
      >> write_decision env r a.id a.type auto_rework (suc a.count)

  unfoldable pub rework_all : ℕ → List Action → M (Unit {0})
  rework_all r [] = pure tt
  rework_all r (a ∷ acts) = rework r a >> rework_all r acts

  -- The rest of a round: the exit, or the reworks and `again`.
  abbrev pub act : ℕ → M Ended → List Action → M Ended
  act r again [] = pure finished
  act r again (a ∷ acts) = rework_all r (a ∷ acts) >> again

  -- `for (;;)`, from round `r` on.
  unfoldable pub loop : (fuel r : ℕ) → M Ended
  loop zero r = pure out_of_fuel
  loop (suc fuel) r = do
    lift (env.drain r)
    ids ← lift (env.list_escalated r)
    acts ← actionable r ids
    act r (loop fuel (suc r)) acts

  -- The last loop; `parked` are the ids that have an entry.
  abbrev pub park_one :
      String → Option EscalationType → (List String → M (Unit {0})) → List String → M (Unit {0})
  park_one id none next parked = next parked
  park_one id (some t) next parked = do
    count ← effective_count env env.last_round id
    write_decision env env.last_round id t park count
    next (id ∷ parked)

  unfoldable pub park_all : List String → List String → M (Unit {0})
  park_all [] parked = pure tt
  park_all (id ∷ ids) parked = if elem id parked then park_all ids parked else (do
    type ← lift (env.read_type env.last_round id)
    park_one id type (park_all ids) parked)

  abbrev pub park_rest : Ended → M Ended
  park_rest out_of_fuel = pure out_of_fuel
  park_rest finished = do
    ids ← lift (env.list_escalated env.last_round)
    park_all ids []
    pure finished

  -- `superviseOvernight`
  unfoldable pub supervise : ℕ → M Ended
  supervise fuel = if env.enabled then (do ended ← loop fuel 0; park_rest ended) else pure finished
