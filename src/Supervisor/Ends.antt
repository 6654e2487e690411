-- ===== src/Supervisor/Ends.antt =====
-- The loop of the supervisor ends: each round that requeues a task lowers the budget that is left.
use mathlib.Core.Path.{subst}
use autodev_harness.Common.{
  is_nil, ap, ◌∙◌, if◌then◌else◌, ◌==◌, ℕ, zero, suc, ◌*◌, String, Bool, true, false, List, [], ◌∷◌,
  ◌≡◌, ◌≢◌, refl, ◌≤◌, ◌<◌, arith, All, elem, eq_iff, eq_refl, length, lookup-put,
}
use autodev_harness.Util.Fallible.{pure, ◌>>◌, ok, answers, follows, lift, ◌>>=◌}
use autodev_harness.Supervisor.Effects.{M, Night, NightEnv, Action, seen_of}
use autodev_harness.Supervisor.Saga.{rework-seen}
use autodev_harness.Supervisor.Room.{room, room_bound, Keeps, room-rises}
use autodev_harness.Supervisor.Rounds.{
  listed_then, Picked, nothing, skipped, taken, actionable-Picks,
}
use autodev_harness.Supervisor.{
  Ended, finished, out_of_fuel, actionable, rework, rework_all, act, loop, park_rest, park_all,
  supervise,
}

-- No tally is below its floor.
abbrev IsAbove : (String → ℕ) → Night → Type 0
IsAbove floor v = (id : String) → floor id ≤ seen_of id v

-- The floor behind a rework of `k`.
abbrev risen : String → Night → String → ℕ
risen k w id = if k == id then suc (seen_of id w) else seen_of id w

module _ (env : NightEnv) (r : ℕ) (floor : String → ℕ) where
  rework-IsAbove :
      (a : Action) (v : Night) {u : Unit {0}}
      → floor a.id ≤ suc a.count
      → IsAbove floor v
      → (rework env r a v).0 ≡ ok u
      → IsAbove floor (rework env r a v).1
  rework-IsAbove a v l h e id = ground (
    arith,
    rework-seen env r a v e,
    h id,
    lookup-put a.id id (suc a.count) v.seen,
    eq_iff a.id id,
  )

  below : {n : ℕ} (a : Action) → n ≤ a.count → floor a.id ≤ suc n → floor a.id ≤ suc a.count
  below a l f = omega arith

  rework_all-IsAbove :
      (w : Night) (ids : List String) (acts : List Action) (v : Night) {u : Unit {0}}
      → ((id : String) → floor id ≤ suc (seen_of id w))
      → Picked env r w ids acts
      → IsAbove floor v
      → (rework_all env r acts v).0 ≡ ok u
      → IsAbove floor (rework_all env r acts v).1
  unfolding rework_all
  rework_all-IsAbove w [] [] v f nothing h e = h
  rework_all-IsAbove w [] (_ ∷ _) v f p h e = elim p [ ]
  rework_all-IsAbove w (_ ∷ ids) acts v f (skipped p) h e = rework_all-IsAbove w ids acts v f p h e
  rework_all-IsAbove w (_ ∷ ids) (_ ∷ acts) v f (taken a l m p) h e =
      follows (λ x. IsAbove floor x.1) (rework env r a v) (λ _. rework_all env r acts) e
        λ u first rest.
          rework_all-IsAbove w ids acts (rework env r a v).1 f p
            (rework-IsAbove a v (below a l (f a.id)) h first) rest

rework-risen :
    (env : NightEnv) (r : ℕ) (a : Action) (w : Night) {u : Unit {0}}
    → seen_of a.id w ≤ a.count
    → (rework env r a w).0 ≡ ok u
    → IsAbove (risen a.id w) (rework env r a w).1
rework-risen env r a w l e id =
    ground (arith, rework-seen env r a w e, lookup-put a.id id (suc a.count) w.seen, eq_iff a.id id)

module _ (k : String) (w : Night) where
  risen_bound : (id : String) → risen k w id ≤ suc (seen_of id w)
  risen_bound id = ground arith

  risen-Keeps : (v : Night) → IsAbove (risen k w) v → Keeps w v
  risen-Keeps v h id = ground (arith, h id)

  risen-room :
      (n : ℕ) (ids : List String) (v : Night)
      → elem k ids ≡ true
      → seen_of k w < n
      → IsAbove (risen k w) v
      → room n ids v < room n ids w
  risen-room n ids v m l h =
      room-rises n k ids w v m l (risen-Keeps v h) (ground (arith, h k, eq_refl k))

due : {n c m : ℕ} → n ≤ c → c < m → n < m
due l m = omega arith

module _ (env : NightEnv) (r : ℕ) (U : List String) where
  -- A round with an action lowers the room.
  rework_all-room :
      (ids : List String) (acts : List Action) (w : Night) {u : Unit {0}}
      → All (λ id. elem id U ≡ true) ids
      → Picked env r w ids acts
      → is_nil acts ≡ false
      → (rework_all env r acts w).0 ≡ ok u
      → room env.max_auto_reworks U (rework_all env r acts w).1 < room env.max_auto_reworks U w
  unfolding rework_all
  rework_all-room [] [] w h nothing n e = cc
  rework_all-room [] (_ ∷ _) w h p n e = elim p [ ]
  rework_all-room (_ ∷ ids) acts w (_, h) (skipped p) n e = rework_all-room ids acts w h p n e
  rework_all-room (_ ∷ ids) (_ ∷ acts) w (i, h) (taken a l m p) n e =
      follows (λ x. room env.max_auto_reworks U x.1 < room env.max_auto_reworks U w)
        (rework env r a w) (λ _. rework_all env r acts) e
        λ u first rest.
          risen-room a.id w env.max_auto_reworks U (rework_all env r acts (rework env r a w).1).1 i
            (due l m)
            (rework_all-IsAbove env r (risen a.id w) w ids acts (rework env r a w).1
              (risen_bound a.id w) p (rework-risen env r a w l first) rest)

enough : {a b c : ℕ} → a ≤ b → b < c → a < c
enough h k = omega arith

module _ (env : NightEnv) (U : List String)
    (listed : (r : ℕ) (ids : List String)
      → env.list_escalated r ≡ ok ids
      → All (λ id. elem id U ≡ true) ids) where
  act_ends :
      (r fuel : ℕ) (ids : List String) (again : M Ended) (acts : List Action) (w : Night)
      → All (λ id. elem id U ≡ true) ids
      → Picked env r w ids acts
      → room env.max_auto_reworks U w < suc fuel
      → ((v : Night) → room env.max_auto_reworks U v < fuel → (again v).0 ≢ ok out_of_fuel)
      → (act env r again acts w).0 ≢ ok out_of_fuel
  act_ends r fuel ids again [] w h p b k e = cc
  act_ends r fuel ids again (a ∷ acts) w h p b k e =
      answers (rework_all env r (a ∷ acts) w) (λ _. again) e
        λ u first rest.
          let lower = rework_all-room env r U ids (a ∷ acts) w h p refl first in
          k (rework_all env r (a ∷ acts) w).1 (omega arith) rest

  pub loop_ends :
      (fuel r : ℕ) (w : Night)
      → room env.max_auto_reworks U w < fuel
      → (loop env fuel r w).0 ≢ ok out_of_fuel
  unfolding loop
  loop_ends zero r w b e = absurd (omega arith)
  loop_ends (suc fuel) r w b e =
      answers (lift (env.drain r) w) (λ _. lift (env.list_escalated r) >>= listed_then env fuel r) e
        λ _ _ drained.
          answers (lift (env.list_escalated r) w) (listed_then env fuel r) drained λ ids l rest.
            answers (actionable env r ids w) (act env r (loop env fuel (suc r))) rest
              λ acts found end.
                let (same, due) = actionable-Picks env r w ids in
                act_ends r fuel ids (loop env fuel (suc r)) acts w (listed r ids l) (due acts found)
                  b (loop_ends fuel (suc r))
                  (subst (λ v. (act env r (loop env fuel (suc r)) acts v).0 ≡ ok out_of_fuel) same
                    end)

  park_rest_ends :
      (ended : Ended) (w : Night) → ended ≢ out_of_fuel → (park_rest env ended w).0 ≢ ok out_of_fuel
  park_rest_ends out_of_fuel w h e = absurd (h refl)
  park_rest_ends finished w h e =
      answers (lift (env.list_escalated env.last_round) w)
        (λ ids. park_all env ids [] >> pure finished) e
        λ ids _ rest. answers (park_all env ids [] w) (λ _. pure finished) rest λ _ _ end. cc

  if_ends :
      (b : Bool) (m : M Ended) (w : Night)
      → (m w).0 ≢ ok out_of_fuel
      → ((if b then m else pure finished) w).0 ≢ ok out_of_fuel
  if_ends true m w h e = h e
  if_ends false m w h e = cc

  -- If every listed id is one of `U`, a night on more fuel than the number of the ids in `U` times
  -- `maxAutoReworks` is never cut off: it finishes or throws.
  pub supervise_ends :
      (fuel : ℕ) (w : Night)
      → length U * env.max_auto_reworks < fuel
      → (supervise env fuel w).0 ≢ ok out_of_fuel
  unfolding supervise
  supervise_ends fuel w b = if_ends env.enabled (loop env fuel 0 >>= park_rest env) w λ e.
      answers (loop env fuel 0 w) (park_rest env) e λ ended l rest.
        park_rest_ends ended (loop env fuel 0 w).1
          (λ same.
            loop_ends fuel 0 w (enough (room_bound env.max_auto_reworks U w) b) (l ∙ ap ok same))
          rest
